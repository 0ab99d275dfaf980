-- ===== src/Syscalls/Sockets.antt =====
-- The functions updateFDTracking of src/syscalls/net.cxx and src/syscalls/sockopt.cxx.
use clues.Common.{
  ℕ, Bool, true, false, Option, none, some, List, [], ◌∷◌, ◌==◌, if◌then◌else◌, is_some, ◌&&◌,
}
use clues.Outcome.{Exception, api_error, Response, ok, fails}
use clues.Fd.{
  FdType, FdInfo, FdInfoMap, FileNum, no_file, file, read_write, new_fd_info, find_fd, track_fd,
  update_fd,
}
use clues.Syscalls.Files.{flagged_info}

-- item::SocketType::Flags: the two bits that are read.
pub record SocketFlags : Type 0 where
  pub cloexec : Bool
  pub nonblock : Bool

-- `make_socket_info`.
unfoldable pub make_socket_info : FileNum → SocketFlags → Option ℕ → Option ℕ → FdInfo
unfolding flagged_info
make_socket_info fd flags domain type =
    record (flagged_info FdType.socket flags.cloexec flags.nonblock fd) {
      sock_domain = domain;
      sock_type = type;
    }

unfoldable pub socket_tracking : SocketFlags → ℕ → ℕ → FileNum → FdInfoMap → FdInfoMap
socket_tracking flags domain type new_fd m =
    track_fd (make_socket_info new_fd flags (some domain) (some type)) m

-- SocketPairSystemCall: the loop over the two descriptors.
unfoldable pub socket_pair_tracking :
    SocketFlags → ℕ → ℕ → FileNum → FileNum → FdInfoMap → FdInfoMap
socket_pair_tracking flags domain type first second m =
    track_fd (make_socket_info second flags (some domain) (some type))
      (track_fd (make_socket_info first flags (some domain) (some type)) m)

-- `add_socket_info`: what getsockopt says of the descriptor that snatchFD has copied.
abbrev pub SocketInfo : Type 0
SocketInfo = Option ℕ × Option ℕ

unfoldable pub add_socket_info : SocketInfo → FdInfo → FdInfo
add_socket_info s i = record i { sock_domain = s.0; sock_type = s.1 }

-- The map after a call, and the exception that leaves the function, if any.
abbrev pub Tracked : Type 0
Tracked = FdInfoMap × Option Exception

-- AcceptSystemCall: `old` is the entry of the listening socket, `new` that of the new one. `snatched`
-- is the answer of the kernel to the copy of the descriptor, and the errno of its ApiError.
abbrev pub accept_asked : FdInfo → FdInfo → Response SocketInfo → FdInfoMap → Tracked
accept_asked old new (fails e) m = (m, some (api_error e))
accept_asked old new (ok s) m =
    (track_fd (add_socket_info s new) (update_fd (add_socket_info s old) m), none)

abbrev accept_found : FdInfo → FdInfo → Response SocketInfo → FdInfoMap → Tracked
accept_found old new snatched m =
    if is_some new.sock_domain && is_some new.sock_type
    then (track_fd new m, none)
    else accept_asked old new snatched m

abbrev accept_missing : FdInfo → Response SocketInfo → FdInfoMap → Tracked
accept_missing new (fails e) m = (m, some (api_error e))
accept_missing new (ok s) m = (track_fd (add_socket_info s new) m, none)

abbrev pub accept_at :
    Option FdInfo → SocketFlags → FileNum → Response SocketInfo → FdInfoMap → Tracked
accept_at (some i) flags n snatched m =
    accept_found i (make_socket_info n flags i.sock_domain i.sock_type) snatched m
accept_at none flags n snatched m = accept_missing (make_socket_info n flags none none) snatched m

unfoldable pub accept_tracking :
    FileNum → SocketFlags → FileNum → Response SocketInfo → FdInfoMap → Tracked
accept_tracking sockfd flags new_fd snatched m =
    accept_at (find_fd sockfd m) flags new_fd snatched m

-- The loop over the result of `get_fd_infos`: the first entry for the descriptor is tracked.
abbrev pub same_file : FileNum → FileNum → Bool
same_file no_file no_file = true
same_file (file a) (file b) = a == b
same_file _ _ = false

unfoldable pub track_listed : FileNum → List FdInfo → FdInfoMap → FdInfoMap
track_listed n [] m = m
track_listed n (i ∷ is) m = if same_file i.fd n then track_fd i m else track_listed n is m

-- A listing, or the exception of a process that is gone.
unfoldable pub recv_msg_track : FileNum → Response (List FdInfo) → FdInfoMap → FdInfoMap
recv_msg_track n (ok infos) m = track_listed n infos m
recv_msg_track n (fails e) m = track_fd (new_fd_info FdType.unknown n) m

-- RecvMsgSystemCall: the descriptors of all UnixRightsMessages in their order, each with the listing
-- that it is looked up in.
unfoldable pub recv_msg_tracking : List (FileNum × Response (List FdInfo)) → FdInfoMap → FdInfoMap
recv_msg_tracking [] m = m
recv_msg_tracking (r ∷ rs) m = recv_msg_tracking rs (recv_msg_track r.0 r.1 m)

-- GetSockOptSystemCall: the option that is read, and the descriptor that its value is.
pub data SockOpt : Type 0 where
  peerpidfd other_option : SockOpt

unfoldable pub peer_pid_fd_info : FileNum → FdInfo
unfolding flagged_info
peer_pid_fd_info fd = record (flagged_info FdType.pid_fd true false fd) { mode = some read_write }

-- `is_socket` says that the level is SOL_SOCKET.
unfoldable pub get_sock_opt_tracking : Bool → SockOpt → FileNum → FdInfoMap → FdInfoMap
get_sock_opt_tracking true peerpidfd optval m = track_fd (peer_pid_fd_info optval) m
get_sock_opt_tracking is_socket option optval m = m
