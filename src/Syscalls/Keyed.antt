-- ===== src/Syscalls/Keyed.antt =====
-- The functions updateFDTracking against the kernel's table of open descriptors.
use clues.Common.{
  Bool, true, false, Option, none, some, List, [], ◌∷◌, is_some, if◌then◌else◌, ◌&&◌, Bool-cases,
  Option-cases, inl, inr,
}
use clues.Outcome.{Response, ok, fails}
use clues.Fd.{FdType, FdInfo, FdInfoMap, FileNum, no_file, file, track_fd, find_fd, new_fd_info}
use clues.Fd.Tracking
use clues.Syscalls.{FcntlOper, dupfd, dupfd_cloexec, setfd}
use clues.Syscalls.Files.{
  dup_tracking, dupfd_found, setfd_found, fcntl_tracking, close_tracking, open_tracking,
  open_at_tracking, pipe_tracking, event_fd_tracking, event_fd2_tracking, epoll_create_tracking,
  open_info, flagged_info, dupfd_entry, set_cloexec,
}
use clues.Syscalls.Sockets.{
  accept_tracking, accept_at, accept_asked, socket_tracking, socket_pair_tracking,
  recv_msg_tracking, recv_msg_track, get_sock_opt_tracking, peer_pid_fd_info, peerpidfd,
  make_socket_info, add_socket_info, SocketFlags, SocketInfo, same_file, track_listed,
}
use clues.Syscalls.Processes.{
  pidfd_get_fd_tracking, clone3_tracking, pidfd_open_tracking, signal_fd_tracking,
  signal_fd4_tracking,
}
use clues.Syscalls.Dispatch.{Call, update_fd_tracking}

module _ (m : FdInfoMap) (v : Tracking.IsKeyed m) where
  dupfd_found-IsKeyed :
      (b : Bool) (n : FileNum) (o : Option FdInfo) → Tracking.IsKeyed (dupfd_found b n m o)
  dupfd_found-IsKeyed b n none = v
  dupfd_found-IsKeyed b n (some i) = Tracking.track_fd-IsKeyed (dupfd_entry b n i) m v

  setfd_found-IsKeyed : (b : Bool) (o : Option FdInfo) → Tracking.IsKeyed (setfd_found b m o)
  setfd_found-IsKeyed b none = v
  setfd_found-IsKeyed b (some i) = Tracking.update_fd-IsKeyed (set_cloexec b i) m v

  fcntl_tracking-IsKeyed :
      (op : FcntlOper) (n r : FileNum) (b : Bool) → Tracking.IsKeyed (fcntl_tracking op n r b m)
  unfolding fcntl_tracking
  fcntl_tracking-IsKeyed dupfd n r b = dupfd_found-IsKeyed false r (find_fd n m)
  fcntl_tracking-IsKeyed dupfd_cloexec n r b = dupfd_found-IsKeyed true r (find_fd n m)
  fcntl_tracking-IsKeyed setfd n r b = setfd_found-IsKeyed b (find_fd n m)
  fcntl_tracking-IsKeyed _ n r b = v

  accept_asked-IsKeyed :
      (i new : FdInfo) (a : Response SocketInfo) → Tracking.IsKeyed (accept_asked i new a m).0
  accept_asked-IsKeyed i new (fails e) = v
  accept_asked-IsKeyed i new (ok x) = search (Tracking.track_fd-IsKeyed, Tracking.update_fd-IsKeyed)

  accept_tracking-IsKeyed :
      (s : FileNum) (f : SocketFlags) (n : FileNum) (a : Response SocketInfo)
      → Tracking.IsKeyed (accept_tracking s f n a m).0
  unfolding accept_tracking
  accept_tracking-IsKeyed s f n a = found (find_fd s m) a
    where
      found :
          (o : Option FdInfo) (a : Response SocketInfo) → Tracking.IsKeyed (accept_at o f n a m).0
      found none (fails e) = v
      found none (ok x) =
          Tracking.track_fd-IsKeyed (add_socket_info x (make_socket_info n f none none)) m v
      found (some i) a =
          let new = make_socket_info n f i.sock_domain i.sock_type in
          elim (Bool-cases (is_some new.sock_domain && is_some new.sock_type)) [
            | inl p ↦ rw p (Tracking.track_fd-IsKeyed new m v)
            | inr p ↦ rw p (accept_asked-IsKeyed i new a)
          ]

track_listed-IsKeyed :
    (n : FileNum) (is : List FdInfo) (m : FdInfoMap)
    → Tracking.IsKeyed m
    → Tracking.IsKeyed (track_listed n is m)
unfolding track_listed
track_listed-IsKeyed n [] m v = v
track_listed-IsKeyed n (i ∷ is) m v = elim (Bool-cases (same_file i.fd n)) [
  | inl p ↦ rw p (Tracking.track_fd-IsKeyed i m v)
  | inr p ↦ rw p (track_listed-IsKeyed n is m v)
]

pub recv_msg_track-IsKeyed :
    (n : FileNum) (l : Response (List FdInfo)) (m : FdInfoMap)
    → Tracking.IsKeyed m
    → Tracking.IsKeyed (recv_msg_track n l m)
unfolding recv_msg_track
recv_msg_track-IsKeyed n (ok infos) m v = track_listed-IsKeyed n infos m v
recv_msg_track-IsKeyed n (fails e) m v =
    Tracking.track_fd-IsKeyed (new_fd_info FdType.unknown n) m v

recv_msg_tracking-IsKeyed :
    (rs : List (FileNum × Response (List FdInfo))) (m : FdInfoMap)
    → Tracking.IsKeyed m
    → Tracking.IsKeyed (recv_msg_tracking rs m)
unfolding recv_msg_tracking
recv_msg_tracking-IsKeyed [] m v = v
recv_msg_tracking-IsKeyed (r ∷ rs) m v =
    recv_msg_tracking-IsKeyed rs (recv_msg_track r.0 r.1 m) (recv_msg_track-IsKeyed r.0 r.1 m v)

-- Tracked or left alone, by a test.
signalled-IsKeyed :
    (b : Bool) (i : FdInfo) (m : FdInfoMap)
    → Tracking.IsKeyed m
    → Tracking.IsKeyed (if b then m else track_fd i m)
signalled-IsKeyed true i m v = v
signalled-IsKeyed false i m v = Tracking.track_fd-IsKeyed i m v

-- Whatever a call has returned, and also where it throws, the map stays in the order of its keys and
-- every entry stays under its own number.
pub update_fd_tracking-IsKeyed :
    (c : Call) (m : FdInfoMap) → Tracking.IsKeyed m → Tracking.IsKeyed (update_fd_tracking c m).0
unfolding update_fd_tracking close_tracking dup_tracking open_tracking open_at_tracking
    pipe_tracking event_fd_tracking event_fd2_tracking epoll_create_tracking socket_tracking
    socket_pair_tracking get_sock_opt_tracking clone3_tracking pidfd_open_tracking
    pidfd_get_fd_tracking signal_fd_tracking signal_fd4_tracking
update_fd_tracking-IsKeyed (Call.close fd) m v = Tracking.drop_fd-IsKeyed fd m v
update_fd_tracking-IsKeyed (Call.dup old new) m v = elim (Option-cases (find_fd old m)) [
  | inl p ↦ rw p v
  | inr (i, p) ↦ rw p (Tracking.track_fd-IsKeyed (record i { fd = new }) m v)
]
update_fd_tracking-IsKeyed (Call.fcntl op fd ret arg) m v = fcntl_tracking-IsKeyed m v op fd ret arg
update_fd_tracking-IsKeyed (Call.open_call p mode flags n) m v =
    Tracking.track_fd-IsKeyed (open_info p mode flags n) m v
update_fd_tracking-IsKeyed (Call.open_at p mode flags n) m v =
    Tracking.track_fd-IsKeyed (open_info p mode flags n) m v
update_fd_tracking-IsKeyed (Call.pipe no_file w) m v = v
update_fd_tracking-IsKeyed (Call.pipe (file r) no_file) m v = v
update_fd_tracking-IsKeyed (Call.pipe (file r) (file w)) m v = search (Tracking.track_fd-IsKeyed)
update_fd_tracking-IsKeyed (Call.event_fd n) m v = search (Tracking.track_fd-IsKeyed)
update_fd_tracking-IsKeyed (Call.epoll_create n) m v = search (Tracking.track_fd-IsKeyed)
update_fd_tracking-IsKeyed (Call.event_fd2 c b n) m v = search (Tracking.track_fd-IsKeyed)
update_fd_tracking-IsKeyed (Call.socket f d t n) m v = search (Tracking.track_fd-IsKeyed)
update_fd_tracking-IsKeyed (Call.socket_pair f d t a b) m v = search (Tracking.track_fd-IsKeyed)
update_fd_tracking-IsKeyed (Call.accept s f n a) m v = accept_tracking-IsKeyed m v s f n a
update_fd_tracking-IsKeyed (Call.recv_msg rs) m v = recv_msg_tracking-IsKeyed rs m v
update_fd_tracking-IsKeyed (Call.get_sock_opt true peerpidfd n) m v =
    Tracking.track_fd-IsKeyed (peer_pid_fd_info n) m v
update_fd_tracking-IsKeyed (Call.get_sock_opt _ _ n) m v = v
update_fd_tracking-IsKeyed (Call.clone3 (some true) n) m v = search (Tracking.track_fd-IsKeyed)
update_fd_tracking-IsKeyed (Call.clone3 _ n) m v = v
update_fd_tracking-IsKeyed (Call.pidfd_open b n) m v = search (Tracking.track_fd-IsKeyed)
update_fd_tracking-IsKeyed (Call.pidfd_get_fd n (ok infos)) m v = track_listed-IsKeyed n infos m v
update_fd_tracking-IsKeyed (Call.pidfd_get_fd n (fails e)) m v = search (Tracking.track_fd-IsKeyed)
update_fd_tracking-IsKeyed (Call.signal_fd a n) m v =
    signalled-IsKeyed (same_file a n) (new_fd_info FdType.signal_fd n) m v
update_fd_tracking-IsKeyed (Call.signal_fd4 a c b n) m v =
    signalled-IsKeyed (same_file a n) (flagged_info FdType.signal_fd c b n) m v
update_fd_tracking-IsKeyed Call.other m v = v
update_fd_tracking-IsKeyed (Call.untracked os cs) m v = v
