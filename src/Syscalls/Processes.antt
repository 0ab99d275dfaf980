-- ===== src/Syscalls/Processes.antt =====
-- The functions updateFDTracking of src/syscalls/process.cxx and
-- src/syscalls/signals.cxx.
use clues.Common.{Bool, true, false, Option, none, some, List, if◌then◌else◌}
use clues.Outcome.{Response, ok, fails}
use clues.Fd.{FdType, FdInfo, FdInfoMap, FileNum, new_fd_info, track_fd}
use clues.Syscalls.Files.{flagged_info}
use clues.Syscalls.Sockets.{track_listed, same_file}

-- Clone3SystemCall: `args` is none where the arguments could not be read; else whether CLONE_PIDFD is
-- among the flags.
unfoldable pub clone3_tracking : Option Bool → FileNum → FdInfoMap → FdInfoMap
clone3_tracking none pidfd m = m
clone3_tracking (some true) pidfd m = track_fd (new_fd_info FdType.pid_fd pidfd) m
clone3_tracking (some false) pidfd m = m

-- PIDFDOpenSystemCall.
unfoldable pub pidfd_open_info : Bool → FileNum → FdInfo
unfolding new_fd_info flagged_info
pidfd_open_info true new_fd = flagged_info FdType.pid_fd false true new_fd
pidfd_open_info false new_fd = new_fd_info FdType.pid_fd new_fd

unfoldable pub pidfd_open_tracking : Bool → FileNum → FdInfoMap → FdInfoMap
pidfd_open_tracking nonblock new_fd m = track_fd (pidfd_open_info nonblock new_fd) m

-- PIDFDGetFDSystemCall.
unfoldable pub pidfd_get_fd_tracking : FileNum → Response (List FdInfo) → FdInfoMap → FdInfoMap
pidfd_get_fd_tracking new_fd (ok infos) m = track_listed new_fd infos m
pidfd_get_fd_tracking new_fd (fails e) m = track_fd (new_fd_info FdType.unknown new_fd) m

-- SignalFDSystemCall and SignalFD4SystemCall: a call that returns the descriptor it was given has
-- opened none.
unfoldable pub signal_fd_tracking : FileNum → FileNum → FdInfoMap → FdInfoMap
signal_fd_tracking fd new_fd m =
    if same_file fd new_fd then m else track_fd (new_fd_info FdType.signal_fd new_fd) m

unfoldable pub signal_fd4_tracking : FileNum → Bool → Bool → FileNum → FdInfoMap → FdInfoMap
signal_fd4_tracking fd cloexec nonblock new_fd m =
    if same_file fd new_fd
    then m
    else track_fd (flagged_info FdType.signal_fd cloexec nonblock new_fd) m
