-- ===== src/Syscalls/Steps.antt =====
-- Each function updateFDTracking of src/syscalls and the descriptors that its call opens.
use clues.Common.{
  ℕ, ◌≡◌, refl, ap, ◌∙◌, Bool, true, false, Option, none, some, List, is_some, ◌&&◌, Bool-cases,
  Option-cases, inl, inr,
}
use clues.Outcome.{Response, ok, fails}
use clues.Fd.{FdType, FdInfo, FdInfoMap, FileNum, track_fd, update_fd, find_fd, new_fd_info}
use clues.Fd.Tracking
use clues.Syscalls.Dispatch.{opens}
use clues.Syscalls.Opened.{
  opened, opened-track_fd, opened-update_fd, opened-track_listed, Found, Listed,
}
use clues.Syscalls.Files.{
  dup_tracking, dupfd_found, setfd_found, dupfd_entry, set_cloexec, flagged_info,
}
use clues.Syscalls.Sockets.{
  accept_tracking, accept_at, recv_msg_track, make_socket_info, add_socket_info, SocketFlags,
  SocketInfo,
}
use clues.Syscalls.Processes.{pidfd_get_fd_tracking}

pub make_socket_info-fd :
    (n : FileNum) (f : SocketFlags) (d t : Option ℕ) → (make_socket_info n f d t).fd ≡ n
unfolding make_socket_info flagged_info
make_socket_info-fd n f d t = refl

pub dupfd_entry-fd : (b : Bool) (n : FileNum) (i : FdInfo) → (dupfd_entry b n i).fd ≡ n
unfolding dupfd_entry set_cloexec
dupfd_entry-fd true n i = refl
dupfd_entry-fd false n i = elim (Option-cases i.flags) [
  | inl p ↦ rw p refl
  | inr (f, p) ↦ rw p refl
]

module _ (m : FdInfoMap) (v : Tracking.IsKeyed m) where
  pub opened-dup_tracking :
      (old n : FileNum) → Found old m → opened (dup_tracking old n m) ≡ opens n (opened m)
  unfolding dup_tracking
  opened-dup_tracking old n h = elim (Option-cases (find_fd old m)) [
    | inl p ↦ absurd cc
    | inr (i, p) ↦ rw p (opened-track_fd (record i { fd = n }) m v n refl)
  ]

  pub opened-dupfd :
      (b : Bool) (old n : FileNum)
      → Found old m
      → opened (dupfd_found b n m (find_fd old m)) ≡ opens n (opened m)
  opened-dupfd b old n h = elim (Option-cases (find_fd old m)) [
    | inl p ↦ absurd cc
    | inr (i, p) ↦ rw p (opened-track_fd (dupfd_entry b n i) m v n (dupfd_entry-fd b n i))
  ]

  pub opened-setfd : (b : Bool) (o : Option FdInfo) → opened (setfd_found b m o) ≡ opened m
  opened-setfd b none = refl
  opened-setfd b (some i) = opened-update_fd (set_cloexec b i) m v

  module _ (f : SocketFlags) (n : FileNum) (a : SocketInfo) where
    opened-asked :
        (i : FdInfo) (new : FdInfo)
        → new.fd ≡ n
        → opened (track_fd (add_socket_info a new) (update_fd (add_socket_info a i) m))
          ≡ opens n (opened m)
    unfolding add_socket_info
    opened-asked i new e =
        opened-track_fd (add_socket_info a new) (update_fd (add_socket_info a i) m)
          (Tracking.update_fd-IsKeyed (add_socket_info a i) m v) n e
        ∙ ap (opens n) (opened-update_fd (add_socket_info a i) m v)

    opened-accept_at :
        (o : Option FdInfo) → opened (accept_at o f n (ok a) m).0 ≡ opens n (opened m)
    unfolding add_socket_info
    opened-accept_at none =
        opened-track_fd (add_socket_info a (make_socket_info n f none none)) m v n
          (make_socket_info-fd n f none none)
    opened-accept_at (some i) =
        let new = make_socket_info n f i.sock_domain i.sock_type in
        let e = make_socket_info-fd n f i.sock_domain i.sock_type in
        elim (Bool-cases (is_some new.sock_domain && is_some new.sock_type)) [
          | inl p ↦ rw p (opened-track_fd new m v n e)
          | inr p ↦ rw p (opened-asked i new e)
        ]

    pub opened-accept_tracking :
        (s : FileNum) → opened (accept_tracking s f n (ok a) m).0 ≡ opens n (opened m)
    unfolding accept_tracking
    opened-accept_tracking s = opened-accept_at (find_fd s m)

  pub opened-recv_msg_track :
      (n : FileNum) (l : Response (List FdInfo))
      → Listed n l
      → opened (recv_msg_track n l m) ≡ opens n (opened m)
  unfolding recv_msg_track new_fd_info
  opened-recv_msg_track n (ok infos) h = opened-track_listed n infos m v h
  opened-recv_msg_track n (fails e) h = opened-track_fd (new_fd_info FdType.unknown n) m v n refl

  pub opened-pidfd_get_fd_tracking :
      (n : FileNum) (l : Response (List FdInfo))
      → Listed n l
      → opened (pidfd_get_fd_tracking n l m) ≡ opens n (opened m)
  unfolding pidfd_get_fd_tracking recv_msg_track
  opened-pidfd_get_fd_tracking n (ok infos) h = opened-recv_msg_track n (ok infos) h
  opened-pidfd_get_fd_tracking n (fails e) h = opened-recv_msg_track n (fails e) h
