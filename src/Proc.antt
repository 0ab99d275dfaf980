-- ===== src/Proc.antt =====
-- What the proc file system says of the file descriptors of a process: get_currently_open_fds,
-- to_fd_info_type, parse_type_info, parse_fd_info and get_fd_infos of src/utils.cxx. A text is a list of
-- bytes.
pub mod Links
pub mod Listing
use clues.Common.{
  ℕ, Bool, true, false, ◌&&◌, ◌||◌, ◌==◌, ltb, Option, none, some, List, [], ◌∷◌, ◌++◌,
  if◌then◌else◌, ◌%◌, ◌-◌,
}
use clues.Fd.{FdType, FileNum, no_file, file}

abbrev pub Text : Type 0
Text = List ℕ

abbrev pub same_text : Text → Text → Bool
same_text [] [] = true
same_text (a ∷ xs) (b ∷ ys) = a == b && same_text xs ys
same_text _ _ = false

-- cosmos::split at the first colon, without and with SplitFlag::STRIP_PARTS, cosmos::stripped of square
-- brackets, and std::stoi, std::stoul and std::stoi with base 8, none where they throw.
pub record Texts : Type 0 where
  pub split : Text → List Text
  pub split_strip : Text → List Text
  pub stripped : Text → Text
  pub stoi : Text → Option ℕ
  pub stoul : Text → Option ℕ
  pub stoi_octal : Text → Option ℕ

-- The words of /proc/<pid>/fd.
abbrev pub pipe_word : Text
pipe_word = 112 ∷ 105 ∷ 112 ∷ 101 ∷ []

abbrev pub socket_word : Text
socket_word = 115 ∷ 111 ∷ 99 ∷ 107 ∷ 101 ∷ 116 ∷ []

abbrev pub eventfd_word : Text
eventfd_word = 101 ∷ 118 ∷ 101 ∷ 110 ∷ 116 ∷ 102 ∷ 100 ∷ []

abbrev pub eventpoll_word : Text
eventpoll_word = 101 ∷ 118 ∷ 101 ∷ 110 ∷ 116 ∷ 112 ∷ 111 ∷ 108 ∷ 108 ∷ []

abbrev pub pidfd_word : Text
pidfd_word = 112 ∷ 105 ∷ 100 ∷ 102 ∷ 100 ∷ []

abbrev pub signalfd_word : Text
signalfd_word = 115 ∷ 105 ∷ 103 ∷ 110 ∷ 97 ∷ 108 ∷ 102 ∷ 100 ∷ []

abbrev pub timerfd_word : Text
timerfd_word = 116 ∷ 105 ∷ 109 ∷ 101 ∷ 114 ∷ 102 ∷ 100 ∷ []

abbrev pub inotify_word : Text
inotify_word = 105 ∷ 110 ∷ 111 ∷ 116 ∷ 105 ∷ 102 ∷ 121 ∷ []

abbrev pub bpf_map_word : Text
bpf_map_word = 98 ∷ 112 ∷ 102 ∷ 45 ∷ 109 ∷ 97 ∷ 112 ∷ []

abbrev pub bpf_prog_word : Text
bpf_prog_word = 98 ∷ 112 ∷ 102 ∷ 45 ∷ 112 ∷ 114 ∷ 111 ∷ 103 ∷ []

abbrev pub perf_event_word : Text
perf_event_word = 112 ∷ 101 ∷ 114 ∷ 102 ∷ 95 ∷ 101 ∷ 118 ∷ 101 ∷ 110 ∷ 116 ∷ []

abbrev pub anon_inode_word : Text
anon_inode_word = 97 ∷ 110 ∷ 111 ∷ 110 ∷ 95 ∷ 105 ∷ 110 ∷ 111 ∷ 100 ∷ 101 ∷ []

abbrev pub flags_word : Text
flags_word = 102 ∷ 108 ∷ 97 ∷ 103 ∷ 115 ∷ []

-- `to_fd_info_type`.
unfoldable pub to_fd_info_type : Text → FdType
to_fd_info_type t =
    if same_text t pipe_word
    then FdType.pipe
    else if same_text t socket_word
    then FdType.socket
    else if same_text t eventfd_word
    then FdType.event_fd
    else if same_text t eventpoll_word
    then FdType.epoll
    else if same_text t pidfd_word
    then FdType.pid_fd
    else if same_text t signalfd_word
    then FdType.signal_fd
    else if same_text t timerfd_word
    then FdType.timer_fd
    else if same_text t inotify_word
    then FdType.inotify
    else if same_text t bpf_map_word
    then FdType.bpf_map
    else if same_text t bpf_prog_word
    then FdType.bpf_prog
    else if same_text t perf_event_word
    then FdType.perf_event
    else FdType.unknown

-- What these functions fill in of an FDInfo. The mode and the flags stand as numbers.
pub record ProcInfo : Type 0 where
  pub type : FdType
  pub fd : FileNum
  pub path : Text
  pub inode : Option ℕ
  pub mode : Option ℕ
  pub flags : Option ℕ

-- `FDInfo info;`.
abbrev pub empty_info : ProcInfo
empty_info = record {
  type = FdType.invalid;
  fd = no_file;
  path = [];
  inode = none;
  mode = none;
  flags = none;
}

-- `parse_type_info`: the information after it, and whether it has understood the text.
abbrev slash : ℕ
slash = 47

abbrev is_path : Text → Bool
is_path [] = false
is_path (c ∷ cs) = c == slash

abbrev with_inode : ProcInfo → Option ℕ → ProcInfo × Bool
with_inode i none = (i, false)
with_inode i (some n) = (record i { inode = some n }, true)

abbrev typed_part : Texts → ProcInfo → Text → Text → ProcInfo × Bool
typed_part ts i type rest =
    if same_text type anon_inode_word
    then (record i { type = to_fd_info_type (ts.stripped rest) }, true)
    else with_inode (record i { type = to_fd_info_type type }) (ts.stoul (ts.stripped rest))

abbrev parse_parts : Texts → ProcInfo → List Text → ProcInfo × Bool
parse_parts ts i (type ∷ rest ∷ []) = typed_part ts i type rest
parse_parts ts i _ = (i, false)

unfoldable pub parse_type_info : Texts → Text → ProcInfo → ProcInfo × Bool
unfolding to_fd_info_type
parse_type_info ts t i =
    if is_path t
    then (record i { path = t; type = FdType.fs_path; inode = none }, true)
    else parse_parts ts i (ts.split t)

-- O_RDONLY|O_WRONLY|O_RDWR is 3: the two low bits are the mode, the others the flags.
abbrev pub mode_bits : ℕ
mode_bits = 4

unfoldable pub set_flags : ℕ → ProcInfo → ProcInfo
set_flags raw i = record i { mode = some (raw % mode_bits); flags = some (raw - raw % mode_bits) }

-- `parse_fd_info` over the lines of fdinfo; none where it throws.
abbrev flags_line : Texts → ProcInfo → Text → Option ProcInfo
flags_line ts i digits = elim (ts.stoi_octal digits) [
  | none ↦ none
  | some raw ↦ some (set_flags raw i)
]

abbrev is_flags : List Text → Bool
is_flags (k ∷ v ∷ []) = same_text k flags_word
is_flags _ = false

abbrev value_of : List Text → Text
value_of (k ∷ v ∷ []) = v
value_of _ = []

unfoldable pub parse_fd_info : Texts → List Text → ProcInfo → Option ProcInfo
unfolding set_flags
parse_fd_info ts [] i = none
parse_fd_info ts (line ∷ lines) i =
    let rest = parse_fd_info ts lines i in
    if is_flags (ts.split_strip line)
    then flags_line ts i (value_of (ts.split_strip line))
    else rest

-- An entry of /proc/<pid>/fd: its name, the text of the link, none where the read of the link throws,
-- and the lines of its fdinfo, none where that file cannot be opened.
pub record DirEntry : Type 0 where
  pub name : Text
  pub link : Option Text
  pub fdinfo : Option (List Text)

-- The dot entries are `.` and `..`.
abbrev pub is_dot_entry : Text → Bool
is_dot_entry t = same_text t (46 ∷ []) || same_text t (46 ∷ 46 ∷ [])

abbrev lines_or_none : Texts → Option (List Text) → ProcInfo → Option ProcInfo
lines_or_none ts none i = none
lines_or_none ts (some lines) i = parse_fd_info ts lines i

abbrev or_same : ProcInfo → Option ProcInfo → ProcInfo
or_same i none = i
or_same i (some j) = j

abbrev pub with_fdinfo : Texts → Option (List Text) → ProcInfo → ProcInfo
with_fdinfo ts f i = or_same i (lines_or_none ts f i)

abbrev pub linked : Texts → Option (List Text) → ProcInfo × Bool → Option ProcInfo
linked ts f (i, true) = some (with_fdinfo ts f i)
linked ts f (i, false) = none

abbrev pub with_link : Texts → DirEntry → ProcInfo → Option ProcInfo
with_link ts e i = elim (e.link) [
  | none ↦ some (with_fdinfo ts (e.fdinfo) i)
  | some t ↦ linked ts (e.fdinfo) (parse_type_info ts t i)
]

-- One round of the loop of `get_fd_infos`: none where it goes on to the next entry.
unfoldable pub entry_info : Texts → DirEntry → Option ProcInfo
unfolding parse_type_info parse_fd_info
entry_info ts e = if is_dot_entry e.name then none else elim (ts.stoi e.name) [
  | none ↦ none
  | some n ↦ with_link ts e (record empty_info { fd = file n })
]

abbrev cons_some {ℓ} : {A : Type ℓ} → Option A → List A → List A
cons_some none xs = xs
cons_some (some x) xs = x ∷ xs

-- `get_fd_infos` and `get_currently_open_fds` over the entries of a directory that could be opened.
unfoldable pub get_fd_infos : Texts → List DirEntry → List ProcInfo
unfolding entry_info
get_fd_infos ts [] = []
get_fd_infos ts (e ∷ es) = cons_some (entry_info ts e) (get_fd_infos ts es)

abbrev open_number : Texts → Text → Option ℕ
open_number ts name = if is_dot_entry name then none else ts.stoi name

-- std::set::insert.
abbrev pub insert_number : ℕ → List ℕ → List ℕ
insert_number n [] = n ∷ []
insert_number n (m ∷ ms) =
    let rest = insert_number n ms in
    if ltb n m then n ∷ m ∷ ms else if n == m then m ∷ ms else m ∷ rest

abbrev insert_some : Option ℕ → List ℕ → List ℕ
insert_some none ret = ret
insert_some (some n) ret = insert_number n ret

unfoldable pub open_fds_loop : Texts → List DirEntry → List ℕ → List ℕ
open_fds_loop ts [] ret = ret
open_fds_loop ts (e ∷ es) ret = open_fds_loop ts es (insert_some (open_number ts e.name) ret)

unfoldable pub get_currently_open_fds : Texts → List DirEntry → List ℕ
unfolding open_fds_loop
get_currently_open_fds ts es = open_fds_loop ts es []
