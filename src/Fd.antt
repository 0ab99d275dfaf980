-- ===== src/Fd.antt =====
-- What is known of the file descriptors of a tracee: FDInfo and FDInfoMap of include/types.hxx, and
-- the three operations of src/Tracee.cxx on the map of a process.
pub mod Tracking
pub mod Exec
use clues.Common.{ℕ, String, Bool, true, false, Option, none, some, List, is_some, if◌then◌else◌}
use clues.Common.Maps

pub data FdType : Type 0 where
  invalid fs_path event_fd timer_fd signal_fd socket epoll pipe inotify pid_fd : FdType
  bpf_map bpf_prog perf_event unknown : FdType

-- cosmos::FileNum: INVALID, or the number of an open descriptor.
pub data FileNum : Type 0 where
  no_file : FileNum
  file : ℕ → FileNum

-- cosmos::OpenMode.
pub data OpenMode : Type 0 where
  read_only write_only read_write : OpenMode

-- cosmos::OpenFlags: the two bits that the library sets and clears, and all the others.
pub record OpenFlags : Type 0 where
  pub cloexec : Bool
  pub nonblock : Bool
  pub others : ℕ

abbrev pub no_flags : OpenFlags
no_flags = record { cloexec = false; nonblock = false; others = 0 }

pub record FdInfo : Type 0 where
  pub type : FdType
  pub fd : FileNum
  pub path : String
  pub mode : Option OpenMode
  pub flags : Option OpenFlags
  pub inode : Option ℕ
  pub sock_domain : Option ℕ
  pub sock_type : Option ℕ

-- `FDInfo{type, fd}`.
unfoldable pub new_fd_info : FdType → FileNum → FdInfo
new_fd_info t n = record {
  type = t;
  fd = n;
  path = "";
  mode = none;
  flags = none;
  inode = none;
  sock_domain = none;
  sock_type = none;
}

-- `FDInfo::valid()`.
abbrev valid_type : FdType → Bool
valid_type FdType.invalid = false
valid_type _ = true

unfoldable pub valid : FdInfo → Bool
valid i = valid_type i.type

-- `FDInfo::ensureFlags()`, and the flags after it.
abbrev pub flags_or_none : Option OpenFlags → OpenFlags
flags_or_none none = no_flags
flags_or_none (some f) = f

unfoldable pub ensure_flags : FdInfo → FdInfo
ensure_flags i = record i { flags = some (flags_or_none i.flags) }

abbrev pub FdInfoMap : Type 0
FdInfoMap = List (ℕ × FdInfo)

-- `map.find(fd)`; INVALID is never a key.
unfoldable pub find_fd : FileNum → FdInfoMap → Option FdInfo
unfolding Maps.find
find_fd no_file m = none
find_fd (file n) m = Maps.find n m

-- Tracee::trackFD: an invalid number is refused, and a number that is known keeps its old entry.
track_file : FileNum → FdInfo → FdInfoMap → FdInfoMap
track_file no_file i m = m
track_file (file n) i m = Maps.insert n i m

unfoldable pub track_fd : FdInfo → FdInfoMap → FdInfoMap
unfolding track_file
track_fd i m = track_file i.fd i m

-- Tracee::updateFD: only an entry that is there is replaced.
update_file : FileNum → FdInfo → FdInfoMap → FdInfoMap
update_file no_file i m = m
update_file (file n) i m = if is_some (Maps.find n m) then Maps.assign n i m else m

unfoldable pub update_fd : FdInfo → FdInfoMap → FdInfoMap
unfolding update_file
update_fd i m = update_file i.fd i m

-- Tracee::dropFD.
unfoldable pub drop_fd : FileNum → FdInfoMap → FdInfoMap
drop_fd no_file m = m
drop_fd (file n) m = Maps.erase n m
