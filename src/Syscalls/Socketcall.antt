-- ===== src/Syscalls/Socketcall.antt =====
-- socketcall() of src/syscalls/socketcall.cxx and include/syscalls/socketcall.hxx: the arguments come in
-- a vector, and each class hands them to the items of the plain call that it derives from.
use clues.Common.{
  ℕ, suc, ◌≡◌, Bool, true, Option, none, some, List, [], ◌∷◌, ◌&&◌, if◌then◌else◌, get_elem?,
  length, ltb,
}
use clues.Syscalls.Members.{Member}
use clues.Syscalls.Layout.{same_member, has_member}

-- item::SocketCallType::Call; `unsupported` is INVALID or any other number.
pub data SubCall : Type 0 where
  socket bind connect listen accept getsockname getpeername : SubCall
  socketpair send recv sendto recvfrom shutdown setsockopt : SubCall
  getsockopt sendmsg recvmsg accept4 recvmmsg sendmmsg : SubCall
  unsupported : SubCall

-- NUM_SOCKETCALL_ARGS.
unfoldable pub num_socketcall_args : SubCall → ℕ
num_socketcall_args socket = 3
num_socketcall_args bind = 3
num_socketcall_args connect = 3
num_socketcall_args listen = 2
num_socketcall_args accept = 3
num_socketcall_args getsockname = 3
num_socketcall_args getpeername = 3
num_socketcall_args socketpair = 4
num_socketcall_args send = 4
num_socketcall_args recv = 4
num_socketcall_args sendto = 6
num_socketcall_args recvfrom = 6
num_socketcall_args shutdown = 2
num_socketcall_args setsockopt = 5
num_socketcall_args getsockopt = 5
num_socketcall_args sendmsg = 3
num_socketcall_args recvmsg = 3
num_socketcall_args accept4 = 4
num_socketcall_args recvmmsg = 5
num_socketcall_args sendmmsg = 4
num_socketcall_args unsupported = 0

-- The classes that the factory chooses: for the calls of this name. `get_sock_opt` and `set_sock_opt`
-- stand for the classes of single options.
pub data SocketClass : Type 0 where
  socket_class socket_pair bind_class connect_class listen_class accept_class : SocketClass
  shutdown_class get_sock_name get_peer_name recv_class recv_from send_class send_to : SocketClass
  recv_msg send_msg recv_m_msg send_m_msg get_sock_opt set_sock_opt : SocketClass

-- `create_socket_call_syscall`; none where it throws a RuntimeError.
unfoldable pub create_socket_call : SubCall → Option SocketClass
create_socket_call socket = some socket_class
create_socket_call socketpair = some socket_pair
create_socket_call bind = some bind_class
create_socket_call connect = some connect_class
create_socket_call listen = some listen_class
create_socket_call accept = some accept_class
create_socket_call accept4 = some accept_class
create_socket_call shutdown = some shutdown_class
create_socket_call getsockname = some get_sock_name
create_socket_call getpeername = some get_peer_name
create_socket_call recv = some recv_class
create_socket_call recvfrom = some recv_from
create_socket_call send = some send_class
create_socket_call sendto = some send_to
create_socket_call recvmsg = some recv_msg
create_socket_call sendmsg = some send_msg
create_socket_call recvmmsg = some recv_m_msg
create_socket_call sendmmsg = some send_m_msg
create_socket_call getsockopt = some get_sock_opt
create_socket_call setsockopt = some set_sock_opt
create_socket_call unsupported = none

-- `vec[i]` that is handed to `fill` of an item; none where the index is out of range.
abbrev pub Fill : Type 0
Fill = Member × Option ℕ

abbrev at : Member → ℕ → List ℕ → Fill
at m i vec = (m, get_elem? vec i)

abbrev flags_of_accept4 : List ℕ → List Fill → List Fill
flags_of_accept4 vec fs = if ltb 3 (length vec) then at Member.flags 3 vec ∷ fs else fs

-- `transferValues`: the fills in their order.
unfoldable pub transfer_values : SocketClass → List ℕ → List Fill
transfer_values socket_class vec =
    at Member.domain 0 vec ∷ at Member.type 1 vec ∷ at Member.prot 2 vec ∷ []
transfer_values socket_pair vec =
    at Member.domain 0 vec ∷ at Member.type 1 vec ∷ at Member.prot 2 vec ∷ at Member.pair 3 vec ∷ []
transfer_values bind_class vec =
    at Member.sockfd 0 vec ∷ at Member.addrlen 2 vec ∷ at Member.addr 1 vec ∷ []
transfer_values connect_class vec =
    at Member.sockfd 0 vec ∷ at Member.addrlen 2 vec ∷ at Member.addr 1 vec ∷ []
transfer_values listen_class vec = at Member.sockfd 0 vec ∷ at Member.backlog 1 vec ∷ []
transfer_values accept_class vec =
    at Member.sockfd 0 vec
    ∷ at Member.addrlen 2 vec
    ∷ flags_of_accept4 vec (at Member.addr 1 vec ∷ [])
transfer_values shutdown_class vec = at Member.sockfd 0 vec ∷ at Member.how 1 vec ∷ []
transfer_values get_sock_name vec =
    at Member.sockfd 0 vec ∷ at Member.addrlen 2 vec ∷ at Member.addr 1 vec ∷ []
transfer_values get_peer_name vec =
    at Member.sockfd 0 vec ∷ at Member.addrlen 2 vec ∷ at Member.addr 1 vec ∷ []
transfer_values recv_class vec =
    at Member.sockfd 0 vec
    ∷ at Member.count 2 vec
    ∷ at Member.flags 3 vec
    ∷ at Member.buffer 1 vec
    ∷ []
transfer_values recv_from vec =
    at Member.sockfd 0 vec
    ∷ at Member.count 2 vec
    ∷ at Member.flags 3 vec
    ∷ at Member.addrlen 5 vec
    ∷ at Member.addr 4 vec
    ∷ at Member.buffer 1 vec
    ∷ []
transfer_values send_class vec =
    at Member.sockfd 0 vec
    ∷ at Member.count 2 vec
    ∷ at Member.flags 3 vec
    ∷ at Member.buffer 1 vec
    ∷ []
transfer_values send_to vec =
    at Member.sockfd 0 vec
    ∷ at Member.count 2 vec
    ∷ at Member.flags 3 vec
    ∷ at Member.addrlen 5 vec
    ∷ at Member.addr 4 vec
    ∷ at Member.buffer 1 vec
    ∷ []
transfer_values recv_msg vec =
    at Member.sockfd 0 vec ∷ at Member.msg 1 vec ∷ at Member.flags 2 vec ∷ []
transfer_values send_msg vec =
    at Member.sockfd 0 vec ∷ at Member.msg 1 vec ∷ at Member.flags 2 vec ∷ []
transfer_values recv_m_msg vec =
    at Member.sockfd 0 vec
    ∷ at Member.num_msgs 2 vec
    ∷ at Member.msgvec 1 vec
    ∷ at Member.flags 3 vec
    ∷ at Member.timeout 4 vec
    ∷ []
transfer_values send_m_msg vec =
    at Member.sockfd 0 vec
    ∷ at Member.num_msgs 2 vec
    ∷ at Member.msgvec 1 vec
    ∷ at Member.flags 3 vec
    ∷ []
transfer_values get_sock_opt vec =
    at Member.sockfd 0 vec
    ∷ at Member.level 1 vec
    ∷ at Member.name 2 vec
    ∷ at Member.optlen 4 vec
    ∷ at Member.optval 3 vec
    ∷ []
transfer_values set_sock_opt vec =
    at Member.sockfd 0 vec
    ∷ at Member.level 1 vec
    ∷ at Member.name 2 vec
    ∷ at Member.optlen 4 vec
    ∷ at Member.optval 3 vec
    ∷ []

-- The parameters of the plain call, in their order: include/syscalls/net.hxx and sockopt.hxx.
unfoldable pub plain_pars : SubCall → List Member
plain_pars socket = Member.domain ∷ Member.type ∷ Member.prot ∷ []
plain_pars bind = Member.sockfd ∷ Member.addr ∷ Member.addrlen ∷ []
plain_pars connect = Member.sockfd ∷ Member.addr ∷ Member.addrlen ∷ []
plain_pars listen = Member.sockfd ∷ Member.backlog ∷ []
plain_pars accept = Member.sockfd ∷ Member.addr ∷ Member.addrlen ∷ []
plain_pars getsockname = Member.sockfd ∷ Member.addr ∷ Member.addrlen ∷ []
plain_pars getpeername = Member.sockfd ∷ Member.addr ∷ Member.addrlen ∷ []
plain_pars socketpair = Member.domain ∷ Member.type ∷ Member.prot ∷ Member.pair ∷ []
plain_pars send = Member.sockfd ∷ Member.buffer ∷ Member.count ∷ Member.flags ∷ []
plain_pars recv = Member.sockfd ∷ Member.buffer ∷ Member.count ∷ Member.flags ∷ []
plain_pars sendto =
    Member.sockfd ∷ Member.buffer ∷ Member.count ∷ Member.flags ∷ Member.addr ∷ Member.addrlen ∷ []
plain_pars recvfrom =
    Member.sockfd ∷ Member.buffer ∷ Member.count ∷ Member.flags ∷ Member.addr ∷ Member.addrlen ∷ []
plain_pars shutdown = Member.sockfd ∷ Member.how ∷ []
plain_pars setsockopt =
    Member.sockfd ∷ Member.level ∷ Member.name ∷ Member.optval ∷ Member.optlen ∷ []
plain_pars getsockopt =
    Member.sockfd ∷ Member.level ∷ Member.name ∷ Member.optval ∷ Member.optlen ∷ []
plain_pars sendmsg = Member.sockfd ∷ Member.msg ∷ Member.flags ∷ []
plain_pars recvmsg = Member.sockfd ∷ Member.msg ∷ Member.flags ∷ []
plain_pars accept4 = Member.sockfd ∷ Member.addr ∷ Member.addrlen ∷ Member.flags ∷ []
plain_pars recvmmsg =
    Member.sockfd ∷ Member.msgvec ∷ Member.num_msgs ∷ Member.flags ∷ Member.timeout ∷ []
plain_pars sendmmsg = Member.sockfd ∷ Member.msgvec ∷ Member.num_msgs ∷ Member.flags ∷ []
plain_pars unsupported = []

-- The item that an item looks at when it is filled.
abbrev depends_on : Member → Option Member
depends_on Member.addr = some Member.addrlen
depends_on Member.buffer = some Member.count
depends_on Member.msgvec = some Member.num_msgs
depends_on Member.optval = some Member.optlen
depends_on _ = none

abbrev is_seen : List Member → Option Member → Bool
is_seen seen none = true
is_seen seen (some m) = has_member m seen

-- No item is filled before the one that it looks at. `seen` are the items that have been filled.
abbrev in_order : List Member → List Fill → Bool
in_order seen [] = true
in_order seen (f ∷ fs) = is_seen seen (depends_on f.0) && in_order (f.0 ∷ seen) fs

abbrev position : Member → List Member → ℕ
position m [] = 0
position m (x ∷ xs) = if same_member m x then 0 else suc (position m xs)

-- The value that the plain call fills a parameter with: the argument at its position.
abbrev pub plain_fill : SubCall → List ℕ → Member → Option ℕ
plain_fill c vec m = get_elem? vec (position m (plain_pars c))

abbrev filled : Member → List Fill → Option (Option ℕ)
filled m [] = none
filled m (f ∷ fs) = if same_member m f.0 then some f.1 else filled m fs

abbrev pub fills_of : Option SocketClass → List ℕ → List Fill
fills_of none vec = []
fills_of (some k) vec = transfer_values k vec

-- Each parameter of the plain call is filled, once, with the argument of the vector at its position.
abbrev pub FillsPlain : SubCall → List ℕ → List Fill → List Member → Type 0
FillsPlain c vec fs [] = Unit
FillsPlain c vec fs (m ∷ ms) =
    ((v : ℕ) × (plain_fill c vec m ≡ some v) × (filled m fs ≡ some (some v)))
    × FillsPlain c vec fs ms

abbrev pub Transfers : SubCall → List ℕ → List Fill → Type 0
Transfers c vec fs =
    FillsPlain c vec fs (plain_pars c)
    × (length fs ≡ length (plain_pars c))
    × (in_order [] fs ≡ true)
