-- ===== src/Syscalls/Files.antt =====
-- The functions updateFDTracking of src/syscalls/fs.cxx and src/syscalls/io.cxx. What the
-- items have decoded comes in as arguments.
use clues.Common.{String, Bool, true, false, Option, none, some}
use clues.Fd.{
  FdType, FdInfo, FdInfoMap, FileNum, no_file, file, OpenMode, read_only, write_only, OpenFlags,
  no_flags, flags_or_none, new_fd_info, ensure_flags, find_fd, track_fd, update_fd, drop_fd,
}
use clues.Syscalls.{FcntlOper, dupfd, dupfd_cloexec, setfd}

-- `info.flags->set(OpenFlag::CLOEXEC)` and `reset`, on flags that are there.
unfoldable pub set_cloexec : Bool → FdInfo → FdInfo
unfolding ensure_flags
set_cloexec b i = record i { flags = some (record (flags_or_none i.flags) { cloexec = b }) }

-- The entry that F_DUPFD or F_DUPFD_CLOEXEC gives to the new descriptor.
abbrev reset_cloexec : FdInfo → Option OpenFlags → FdInfo
reset_cloexec i none = i
reset_cloexec i (some f) = record i { flags = some (record f { cloexec = false }) }

unfoldable pub dupfd_entry : Bool → FileNum → FdInfo → FdInfo
unfolding set_cloexec
dupfd_entry true n i = set_cloexec true (record i { fd = n })
dupfd_entry false n i = reset_cloexec (record i { fd = n }) i.flags

-- FcntlSystemCall: the descriptor, the returned one, and whether FD_CLOEXEC is in the argument.
abbrev pub dupfd_found : Bool → FileNum → FdInfoMap → Option FdInfo → FdInfoMap
dupfd_found b n m none = m
dupfd_found b n m (some i) = track_fd (dupfd_entry b n i) m

abbrev pub setfd_found : Bool → FdInfoMap → Option FdInfo → FdInfoMap
setfd_found b m none = m
setfd_found b m (some i) = update_fd (set_cloexec b i) m

unfoldable pub fcntl_tracking : FcntlOper → FileNum → FileNum → Bool → FdInfoMap → FdInfoMap
fcntl_tracking dupfd fd ret_dupfd arg m = dupfd_found false ret_dupfd m (find_fd fd m)
fcntl_tracking dupfd_cloexec fd ret_dupfd arg m = dupfd_found true ret_dupfd m (find_fd fd m)
fcntl_tracking setfd fd ret_dupfd arg m = setfd_found arg m (find_fd fd m)
fcntl_tracking _ fd ret_dupfd arg m = m

-- OpenSystemCall and OpenAtSystemCall.
unfoldable pub open_info : String → OpenMode → OpenFlags → FileNum → FdInfo
unfolding new_fd_info
open_info filename mode flags new_fd = record (new_fd_info FdType.fs_path new_fd) {
  path = filename;
  mode = some mode;
  flags = some flags;
}

unfoldable pub open_tracking : String → OpenMode → OpenFlags → FileNum → FdInfoMap → FdInfoMap
open_tracking filename mode flags new_fd m = track_fd (open_info filename mode flags new_fd) m

unfoldable pub open_at_tracking : String → OpenMode → OpenFlags → FileNum → FdInfoMap → FdInfoMap
open_at_tracking filename mode flags new_fd m = track_fd (open_info filename mode flags new_fd) m

-- CloseSystemCall.
unfoldable pub close_tracking : FileNum → FdInfoMap → FdInfoMap
close_tracking fd m = drop_fd fd m

-- DupSystemCall, also for dup2 and dup3.
abbrev dup_found : FileNum → FdInfoMap → Option FdInfo → FdInfoMap
dup_found retfd m none = m
dup_found retfd m (some i) = track_fd (record i { fd = retfd }) m

unfoldable pub dup_tracking : FileNum → FileNum → FdInfoMap → FdInfoMap
dup_tracking oldfd retfd m = dup_found retfd m (find_fd oldfd m)

-- PipeSystemCall, also for pipe2; `haveEnds` is false unless both ends are valid.
unfoldable pub pipe_info : OpenMode → FileNum → FdInfo
unfolding new_fd_info
pipe_info mode end = record (new_fd_info FdType.pipe end) { mode = some mode }

unfoldable pub pipe_tracking : FileNum → FileNum → FdInfoMap → FdInfoMap
pipe_tracking no_file write_end m = m
pipe_tracking (file r) no_file m = m
pipe_tracking (file r) (file w) m =
    track_fd (pipe_info write_only (file w)) (track_fd (pipe_info read_only (file r)) m)

-- EventFDSystemCall, EventFD2SystemCall, EPollCreateSystemCall.
abbrev two_flags : Bool → Bool → OpenFlags
two_flags cloexec nonblock = record no_flags { cloexec = cloexec; nonblock = nonblock }

unfoldable pub flagged_info : FdType → Bool → Bool → FileNum → FdInfo
unfolding new_fd_info
flagged_info t cloexec nonblock n = record (new_fd_info t n) {
  flags = some (two_flags cloexec nonblock);
}

unfoldable pub event_fd_tracking : FileNum → FdInfoMap → FdInfoMap
event_fd_tracking new_fd m = track_fd (new_fd_info FdType.event_fd new_fd) m

unfoldable pub event_fd2_tracking : Bool → Bool → FileNum → FdInfoMap → FdInfoMap
event_fd2_tracking cloexec nonblock new_fd m =
    track_fd (flagged_info FdType.event_fd cloexec nonblock new_fd) m

unfoldable pub epoll_create_tracking : FileNum → FdInfoMap → FdInfoMap
epoll_create_tracking new_fd m = track_fd (new_fd_info FdType.event_fd new_fd) m
