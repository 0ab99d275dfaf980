-- ===== src/Syscalls/Refinement.antt =====
-- The functions updateFDTracking against the kernel's table of open descriptors.
use clues.Common.{◌≡◌, refl, ap, ◌∙◌, Bool, true, false, some, List, [], ◌∷◌, if◌then◌else◌, All}
use clues.Outcome.{Response, ok, fails}
use clues.Fd.{
  read_only, write_only, FdType, FdInfo, FdInfoMap, FileNum, no_file, file, track_fd, find_fd,
  new_fd_info,
}
use clues.Fd.Tracking
use clues.Syscalls.{FcntlOper, dupfd, dupfd_cloexec, setfd}
use clues.Syscalls.Files.{
  fcntl_tracking, close_tracking, open_tracking, open_at_tracking, pipe_tracking, event_fd_tracking,
  event_fd2_tracking, epoll_create_tracking, open_info, pipe_info, flagged_info,
}
use clues.Syscalls.Sockets.{
  socket_tracking, socket_pair_tracking, recv_msg_tracking, recv_msg_track, get_sock_opt_tracking,
  peer_pid_fd_info, peerpidfd, make_socket_info, same_file,
}
use clues.Syscalls.Processes.{
  clone3_tracking, pidfd_open_tracking, pidfd_open_info, signal_fd_tracking, signal_fd4_tracking,
}
use clues.Syscalls.Dispatch.{
  Call, update_fd_tracking, Table, opens, opens_all, opens_by_fcntl, kernel,
}
use clues.Syscalls.Keyed.{recv_msg_track-IsKeyed, update_fd_tracking-IsKeyed}
use clues.Syscalls.Opened.{opened, opened-track_fd, opened-drop_fd, Found, Listed}
use clues.Syscalls.Steps.{
  opened-dup_tracking, opened-dupfd, opened-setfd, opened-accept_tracking, opened-recv_msg_track,
  opened-pidfd_get_fd_tracking,
}

abbrev Answered : {A : Type 0} → Response A → Type 0
Answered (ok a) = Unit
Answered (fails e) = ⊥

abbrev CopySeen : FcntlOper → FileNum → FdInfoMap → Type 0
CopySeen dupfd n m = Found n m
CopySeen dupfd_cloexec n m = Found n m
CopySeen _ n m = Unit

abbrev Seen : Call → FdInfoMap → Type 0
Seen (Call.dup old new) m = Found old m
Seen (Call.fcntl op fd ret arg) m = CopySeen op fd m
Seen (Call.accept s f n a) m = Answered a
Seen (Call.recv_msg rs) m = All (λ r. Listed r.0 r.1) rs
Seen (Call.pidfd_get_fd n l) m = Listed n l
Seen (Call.untracked os cs) m = ⊥
Seen _ m = Unit

opened-recv_msg_tracking :
    (rs : List (FileNum × Response (List FdInfo))) (m : FdInfoMap)
    → Tracking.IsKeyed m
    → All (λ r. Listed r.0 r.1) rs
    → opened (recv_msg_tracking rs m) ≡ opens_all rs (opened m)
unfolding recv_msg_tracking
opened-recv_msg_tracking [] m v h = refl
opened-recv_msg_tracking (r ∷ rs) m v h =
    opened-recv_msg_tracking rs (recv_msg_track r.0 r.1 m) (recv_msg_track-IsKeyed r.0 r.1 m v) h.1
    ∙ ap (opens_all rs) (opened-recv_msg_track m v r.0 r.1 h.0)

opened-fcntl_tracking :
    (op : FcntlOper) (n r : FileNum) (b : Bool) (m : FdInfoMap)
    → Tracking.IsKeyed m
    → CopySeen op n m
    → opened (fcntl_tracking op n r b m) ≡ opens_by_fcntl op r (opened m)
unfolding fcntl_tracking
opened-fcntl_tracking dupfd n r b m v h = opened-dupfd m v false n r h
opened-fcntl_tracking dupfd_cloexec n r b m v h = opened-dupfd m v true n r h
opened-fcntl_tracking setfd n r b m v h = opened-setfd m v b (find_fd n m)
opened-fcntl_tracking _ n r b m v h = refl

opened-signalled :
    (b : Bool) (i : FdInfo) (m : FdInfoMap)
    → Tracking.IsKeyed m
    → opened (if b then m else track_fd i m) ≡ (if b then opened m else opens i.fd (opened m))
opened-signalled true i m v = refl
opened-signalled false i m v = opened-track_fd i m v i.fd refl

opened-pidfd_open :
    (b : Bool) (n : FileNum) (m : FdInfoMap)
    → Tracking.IsKeyed m
    → opened (track_fd (pidfd_open_info b n) m) ≡ opens n (opened m)
unfolding pidfd_open_info flagged_info new_fd_info
opened-pidfd_open true n m v = opened-track_fd (pidfd_open_info true n) m v n refl
opened-pidfd_open false n m v = opened-track_fd (pidfd_open_info false n) m v n refl

opened-two :
    (a b : FdInfo) (m : FdInfoMap)
    → Tracking.IsKeyed m
    → opened (track_fd b (track_fd a m)) ≡ opens b.fd (opens a.fd (opened m))
opened-two a b m v =
    opened-track_fd b (track_fd a m) (Tracking.track_fd-IsKeyed a m v) b.fd refl
    ∙ ap (opens b.fd) (opened-track_fd a m v a.fd refl)

-- After a successful call that the library has seen, the descriptors that it takes for open are those
-- that the kernel has open: those open before, those that the call has opened, and none that it has
-- closed. The source of a copy is known, the kernel answers where accept asks for the socket's type,
-- and a listing that a new descriptor is looked up in has it.
pub update_fd_tracking-refines :
    (c : Call) (m : FdInfoMap)
    → Tracking.IsKeyed m
    → Seen c m
    → opened (update_fd_tracking c m).0 ≡ kernel c (opened m)
unfolding update_fd_tracking close_tracking open_tracking open_at_tracking pipe_tracking
    event_fd_tracking event_fd2_tracking epoll_create_tracking socket_tracking socket_pair_tracking
    get_sock_opt_tracking clone3_tracking pidfd_open_tracking signal_fd_tracking signal_fd4_tracking
    open_info pipe_info flagged_info new_fd_info peer_pid_fd_info make_socket_info
update_fd_tracking-refines (Call.close fd) m v h = opened-drop_fd fd m v
update_fd_tracking-refines (Call.dup old new) m v h = opened-dup_tracking m v old new h
update_fd_tracking-refines (Call.fcntl op fd ret arg) m v h =
    opened-fcntl_tracking op fd ret arg m v h
update_fd_tracking-refines (Call.open_call p mode flags n) m v h =
    opened-track_fd (open_info p mode flags n) m v n refl
update_fd_tracking-refines (Call.open_at p mode flags n) m v h =
    opened-track_fd (open_info p mode flags n) m v n refl
update_fd_tracking-refines (Call.pipe no_file w) m v h = refl
update_fd_tracking-refines (Call.pipe (file r) no_file) m v h = refl
update_fd_tracking-refines (Call.pipe (file r) (file w)) m v h =
    opened-two (pipe_info read_only (file r)) (pipe_info write_only (file w)) m v
update_fd_tracking-refines (Call.event_fd n) m v h =
    opened-track_fd (new_fd_info FdType.event_fd n) m v n refl
update_fd_tracking-refines (Call.epoll_create n) m v h =
    opened-track_fd (new_fd_info FdType.event_fd n) m v n refl
update_fd_tracking-refines (Call.event_fd2 c b n) m v h =
    opened-track_fd (flagged_info FdType.event_fd c b n) m v n refl
update_fd_tracking-refines (Call.socket f d t n) m v h =
    opened-track_fd (make_socket_info n f (some d) (some t)) m v n refl
update_fd_tracking-refines (Call.socket_pair f d t a b) m v h =
    opened-two (make_socket_info a f (some d) (some t)) (make_socket_info b f (some d) (some t)) m v
update_fd_tracking-refines (Call.accept s f n (ok a)) m v h = opened-accept_tracking m v f n a s
update_fd_tracking-refines (Call.accept s f n (fails e)) m v h = absurd h
update_fd_tracking-refines (Call.recv_msg rs) m v h = opened-recv_msg_tracking rs m v h
update_fd_tracking-refines (Call.get_sock_opt true peerpidfd n) m v h =
    opened-track_fd (peer_pid_fd_info n) m v n refl
update_fd_tracking-refines (Call.get_sock_opt _ _ n) m v h = refl
update_fd_tracking-refines (Call.clone3 (some true) n) m v h =
    opened-track_fd (new_fd_info FdType.pid_fd n) m v n refl
update_fd_tracking-refines (Call.clone3 _ n) m v h = refl
update_fd_tracking-refines (Call.pidfd_open b n) m v h = opened-pidfd_open b n m v
update_fd_tracking-refines (Call.pidfd_get_fd n l) m v h = opened-pidfd_get_fd_tracking m v n l h
update_fd_tracking-refines (Call.signal_fd a n) m v h =
    opened-signalled (same_file a n) (new_fd_info FdType.signal_fd n) m v
update_fd_tracking-refines (Call.signal_fd4 a c b n) m v h =
    opened-signalled (same_file a n) (flagged_info FdType.signal_fd c b n) m v
update_fd_tracking-refines Call.other m v h = refl
update_fd_tracking-refines (Call.untracked os cs) m v h = absurd h

-- A run of calls of one process.
unfoldable pub track_calls : List Call → FdInfoMap → FdInfoMap
track_calls [] m = m
track_calls (c ∷ cs) m = track_calls cs (update_fd_tracking c m).0

abbrev pub kernel_run : List Call → Table → Table
kernel_run [] t = t
kernel_run (c ∷ cs) t = kernel_run cs (kernel c t)

abbrev pub SeenRun : List Call → FdInfoMap → Type 0
SeenRun [] m = Unit
SeenRun (c ∷ cs) m = Seen c m × SeenRun cs (update_fd_tracking c m).0

-- Over a whole run of successful calls of one process that the library has seen, the tracked descriptors
-- stay those that the kernel has open: where no call that changes descriptors is one of those that the
-- library does not track, the source of each copy is known, the kernel answers where accept asks for
-- the socket's type, and each listing that a new descriptor is looked up in has it.
pub track_calls-refines :
    (cs : List Call) (m : FdInfoMap)
    → Tracking.IsKeyed m
    → SeenRun cs m
    → opened (track_calls cs m) ≡ kernel_run cs (opened m)
unfolding track_calls
track_calls-refines [] m v h = refl
track_calls-refines (c ∷ cs) m v h =
    track_calls-refines cs (update_fd_tracking c m).0 (update_fd_tracking-IsKeyed c m v) h.1
    ∙ ap (kernel_run cs) (update_fd_tracking-refines c m v h.0)
