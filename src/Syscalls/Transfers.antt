-- ===== src/Syscalls/Transfers.antt =====
-- socketcall() against the plain calls.
use clues.Common.{◌≡◌, refl, ℕ, List, [], ◌∷◌, length, arith}
use clues.Syscalls.Socketcall.{
  SubCall, num_socketcall_args, create_socket_call, fills_of, transfer_values, plain_pars,
  Transfers,
}

-- A vector of as many arguments as the sub-call has fills exactly the parameters of the plain call, each
-- with the argument that stands at its position there: no index is out of range, no parameter is left
-- out, and none is filled before the length or the count that it looks at.
pub transfer_values_lem :
    (c : SubCall) (vec : List ℕ)
    → length vec ≡ num_socketcall_args c
    → Transfers c vec (fills_of (create_socket_call c) vec)
unfolding num_socketcall_args create_socket_call transfer_values plain_pars
transfer_values_lem SubCall.socket (a ∷ b ∷ c ∷ []) h =
    (((a, refl, refl), ((b, refl, refl), ((c, refl, refl), tt))), refl, refl)
transfer_values_lem SubCall.bind (a ∷ b ∷ c ∷ []) h =
    (((a, refl, refl), ((b, refl, refl), ((c, refl, refl), tt))), refl, refl)
transfer_values_lem SubCall.connect (a ∷ b ∷ c ∷ []) h =
    (((a, refl, refl), ((b, refl, refl), ((c, refl, refl), tt))), refl, refl)
transfer_values_lem SubCall.listen (a ∷ b ∷ []) h =
    (((a, refl, refl), ((b, refl, refl), tt)), refl, refl)
transfer_values_lem SubCall.accept (a ∷ b ∷ c ∷ []) h =
    (((a, refl, refl), ((b, refl, refl), ((c, refl, refl), tt))), refl, refl)
transfer_values_lem SubCall.getsockname (a ∷ b ∷ c ∷ []) h =
    (((a, refl, refl), ((b, refl, refl), ((c, refl, refl), tt))), refl, refl)
transfer_values_lem SubCall.getpeername (a ∷ b ∷ c ∷ []) h =
    (((a, refl, refl), ((b, refl, refl), ((c, refl, refl), tt))), refl, refl)
transfer_values_lem SubCall.socketpair (a ∷ b ∷ c ∷ d ∷ []) h =
    (((a, refl, refl), ((b, refl, refl), ((c, refl, refl), ((d, refl, refl), tt)))), refl, refl)
transfer_values_lem SubCall.send (a ∷ b ∷ c ∷ d ∷ []) h =
    (((a, refl, refl), ((b, refl, refl), ((c, refl, refl), ((d, refl, refl), tt)))), refl, refl)
transfer_values_lem SubCall.recv (a ∷ b ∷ c ∷ d ∷ []) h =
    (((a, refl, refl), ((b, refl, refl), ((c, refl, refl), ((d, refl, refl), tt)))), refl, refl)
transfer_values_lem SubCall.sendto (a ∷ b ∷ c ∷ d ∷ e ∷ f ∷ []) h = (
  (
    (a, refl, refl),
    (
      (b, refl, refl),
      ((c, refl, refl), ((d, refl, refl), ((e, refl, refl), ((f, refl, refl), tt)))),
    ),
  ),
  refl,
  refl,
)
transfer_values_lem SubCall.recvfrom (a ∷ b ∷ c ∷ d ∷ e ∷ f ∷ []) h = (
  (
    (a, refl, refl),
    (
      (b, refl, refl),
      ((c, refl, refl), ((d, refl, refl), ((e, refl, refl), ((f, refl, refl), tt)))),
    ),
  ),
  refl,
  refl,
)
transfer_values_lem SubCall.shutdown (a ∷ b ∷ []) h =
    (((a, refl, refl), ((b, refl, refl), tt)), refl, refl)
transfer_values_lem SubCall.setsockopt (a ∷ b ∷ c ∷ d ∷ e ∷ []) h = (
  ((a, refl, refl), ((b, refl, refl), ((c, refl, refl), ((d, refl, refl), ((e, refl, refl), tt))))),
  refl,
  refl,
)
transfer_values_lem SubCall.getsockopt (a ∷ b ∷ c ∷ d ∷ e ∷ []) h = (
  ((a, refl, refl), ((b, refl, refl), ((c, refl, refl), ((d, refl, refl), ((e, refl, refl), tt))))),
  refl,
  refl,
)
transfer_values_lem SubCall.sendmsg (a ∷ b ∷ c ∷ []) h =
    (((a, refl, refl), ((b, refl, refl), ((c, refl, refl), tt))), refl, refl)
transfer_values_lem SubCall.recvmsg (a ∷ b ∷ c ∷ []) h =
    (((a, refl, refl), ((b, refl, refl), ((c, refl, refl), tt))), refl, refl)
transfer_values_lem SubCall.accept4 (a ∷ b ∷ c ∷ d ∷ []) h =
    (((a, refl, refl), ((b, refl, refl), ((c, refl, refl), ((d, refl, refl), tt)))), refl, refl)
transfer_values_lem SubCall.recvmmsg (a ∷ b ∷ c ∷ d ∷ e ∷ []) h = (
  ((a, refl, refl), ((b, refl, refl), ((c, refl, refl), ((d, refl, refl), ((e, refl, refl), tt))))),
  refl,
  refl,
)
transfer_values_lem SubCall.sendmmsg (a ∷ b ∷ c ∷ d ∷ []) h =
    (((a, refl, refl), ((b, refl, refl), ((c, refl, refl), ((d, refl, refl), tt)))), refl, refl)
transfer_values_lem SubCall.unsupported [] h = (tt, refl, refl)
transfer_values_lem _ _ h = absurd (omega arith)
