-- ===== src/Syscalls/Dispatch.antt =====
-- `updateFDTracking` as a virtual function: the calls that override it, each with what its items have
-- decoded, and what the kernel does to the descriptors of the process in such a call.
use clues.Common.{
  ℕ, String, Bool, true, Option, none, some, List, [], ◌∷◌, ◌==◌, if◌then◌else◌, ◌&&◌, ◌||◌, not,
}
use clues.Outcome.{Response}
use clues.Fd.{FdInfo, FdInfoMap, FileNum, no_file, file, OpenMode, OpenFlags}
use clues.Syscalls.{FcntlOper, dupfd, dupfd_cloexec}
use clues.Syscalls.Files
use clues.Syscalls.Sockets
use clues.Syscalls.Processes

-- `other` are calls that change no descriptors. `untracked` are those that open and close some and whose
-- classes do not override the function: timerfd_create, inotify_init, openat2, memfd_create, clone with
-- CLONE_PIDFD and close_range are among them.
pub data Call : Type 0 where
  close : FileNum → Call
  dup : FileNum → FileNum → Call
  fcntl : FcntlOper → FileNum → FileNum → Bool → Call
  open_call open_at : String → OpenMode → OpenFlags → FileNum → Call
  pipe : FileNum → FileNum → Call
  event_fd epoll_create : FileNum → Call
  event_fd2 : Bool → Bool → FileNum → Call
  socket : Sockets.SocketFlags → ℕ → ℕ → FileNum → Call
  socket_pair : Sockets.SocketFlags → ℕ → ℕ → FileNum → FileNum → Call
  accept : FileNum → Sockets.SocketFlags → FileNum → Response Sockets.SocketInfo → Call
  recv_msg : List (FileNum × Response (List FdInfo)) → Call
  get_sock_opt : Bool → Sockets.SockOpt → FileNum → Call
  clone3 : Option Bool → FileNum → Call
  pidfd_open : Bool → FileNum → Call
  pidfd_get_fd : FileNum → Response (List FdInfo) → Call
  signal_fd : FileNum → FileNum → Call
  signal_fd4 : FileNum → Bool → Bool → FileNum → Call
  other : Call
  untracked : List FileNum → List FileNum → Call

abbrev done : FdInfoMap → Sockets.Tracked
done m = (m, none)

-- The calls that do not override the function leave the map alone.
unfoldable pub update_fd_tracking : Call → FdInfoMap → Sockets.Tracked
update_fd_tracking (close fd) m = done (Files.close_tracking fd m)
update_fd_tracking (dup old new) m = done (Files.dup_tracking old new m)
update_fd_tracking (fcntl op fd ret arg) m = done (Files.fcntl_tracking op fd ret arg m)
update_fd_tracking (open_call p mode flags n) m = done (Files.open_tracking p mode flags n m)
update_fd_tracking (open_at p mode flags n) m = done (Files.open_at_tracking p mode flags n m)
update_fd_tracking (pipe r w) m = done (Files.pipe_tracking r w m)
update_fd_tracking (event_fd n) m = done (Files.event_fd_tracking n m)
update_fd_tracking (epoll_create n) m = done (Files.epoll_create_tracking n m)
update_fd_tracking (event_fd2 c b n) m = done (Files.event_fd2_tracking c b n m)
update_fd_tracking (socket f d t n) m = done (Sockets.socket_tracking f d t n m)
update_fd_tracking (socket_pair f d t a b) m = done (Sockets.socket_pair_tracking f d t a b m)
update_fd_tracking (accept s f n a) m = Sockets.accept_tracking s f n a m
update_fd_tracking (recv_msg rs) m = done (Sockets.recv_msg_tracking rs m)
update_fd_tracking (get_sock_opt l o n) m = done (Sockets.get_sock_opt_tracking l o n m)
update_fd_tracking (clone3 a n) m = done (Processes.clone3_tracking a n m)
update_fd_tracking (pidfd_open b n) m = done (Processes.pidfd_open_tracking b n m)
update_fd_tracking (pidfd_get_fd n l) m = done (Processes.pidfd_get_fd_tracking n l m)
update_fd_tracking (signal_fd a n) m = done (Processes.signal_fd_tracking a n m)
update_fd_tracking (signal_fd4 a c b n) m = done (Processes.signal_fd4_tracking a c b n m)
update_fd_tracking other m = done m
update_fd_tracking (untracked os cs) m = done m

-- The kernel's side: the table of a process says which descriptors are open.
abbrev pub Table : Type 0
Table = ℕ → Bool

abbrev pub opens : FileNum → Table → Table
opens no_file t k = t k
opens (file n) t k = (k == n) || t k

abbrev pub closes : FileNum → Table → Table
closes no_file t k = t k
closes (file n) t k = not (k == n) && t k

abbrev pub opens_all : List (FileNum × Response (List FdInfo)) → Table → Table
opens_all [] t = t
opens_all (r ∷ rs) t = opens_all rs (opens r.0 t)

abbrev opens_each : List FileNum → Table → Table
opens_each [] t = t
opens_each (n ∷ ns) t = opens_each ns (opens n t)

abbrev closes_each : List FileNum → Table → Table
closes_each [] t = t
closes_each (n ∷ ns) t = closes_each ns (closes n t)

abbrev pub opens_by_fcntl : FcntlOper → FileNum → Table → Table
opens_by_fcntl dupfd n t = opens n t
opens_by_fcntl dupfd_cloexec n t = opens n t
opens_by_fcntl _ n t = t

-- A successful call opens what it returns or writes, and of the tracked ones close is the one that
-- closes. A pipe has
-- written both ends, or none that could be read.
abbrev pub kernel : Call → Table → Table
kernel (close fd) t = closes fd t
kernel (dup old new) t = opens new t
kernel (fcntl op fd ret arg) t = opens_by_fcntl op ret t
kernel (open_call p mode flags n) t = opens n t
kernel (open_at p mode flags n) t = opens n t
kernel (pipe no_file w) t = t
kernel (pipe (file r) no_file) t = t
kernel (pipe (file r) (file w)) t = opens (file w) (opens (file r) t)
kernel (event_fd n) t = opens n t
kernel (epoll_create n) t = opens n t
kernel (event_fd2 c b n) t = opens n t
kernel (socket f d s n) t = opens n t
kernel (socket_pair f d s a b) t = opens b (opens a t)
kernel (accept s f n a) t = opens n t
kernel (recv_msg rs) t = opens_all rs t
kernel (get_sock_opt true Sockets.peerpidfd n) t = opens n t
kernel (get_sock_opt _ _ n) t = t
kernel (clone3 (some true) n) t = opens n t
kernel (clone3 _ n) t = t
kernel (pidfd_open b n) t = opens n t
kernel (pidfd_get_fd n l) t = opens n t
kernel (signal_fd a n) t = if Sockets.same_file a n then t else opens n t
kernel (signal_fd4 a c b n) t = if Sockets.same_file a n then t else opens n t
kernel other t = t
kernel (untracked os cs) t = closes_each cs (opens_each os t)
