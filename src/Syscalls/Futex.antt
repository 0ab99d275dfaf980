-- ===== src/Syscalls/Futex.antt =====
-- FutexSystemCall of src/syscalls/thread.cxx and include/syscalls/thread.hxx: its parameters and its
-- return item, by the command.
use clues.Common.{ℕ, suc, ◌≡◌, refl, Bool, true, Option, List, [], ◌∷◌, ◌&&◌, ◌||◌, ◌==◌}
use clues.Syscalls.Members.{Member}
use clues.Syscalls.Layout.{
  Layout, reset, reset_all, emplace, drop_parameters, add_parameters, with_return, set_return_item,
  Checked, second_pass, layout_of, Kept, StartsWith, after, same_member,
}

-- item::FutexOperation::Command; `unknown` stands for any other number.
pub data Command : Type 0 where
  wait wake create_fd requeue cmp_requeue wake_op lock_pi unlock_pi trylock_pi : Command
  wait_bitset wake_bitset wait_requeue_pi cmp_requeue_pi lock_pi2 unknown : Command

abbrev pub futex_args : List Member
futex_args =
    Member.value ∷ Member.wake_count ∷ Member.fd_sig ∷ Member.timeout ∷ Member.futex2_addr
    ∷ Member.requeue_value ∷ Member.requeue_limit ∷ Member.wake_count2 ∷ Member.wake_op
    ∷ Member.bitset ∷ []

abbrev pub futex_optional : List Member
futex_optional = Member.num_woken_up ∷ Member.new_fd ∷ Member.result ∷ futex_args

-- FutexSystemCall::prepareNewSystemCall.
unfoldable pub futex_prepare : Layout → Layout
futex_prepare l = with_return Member.result (
    reset_all (Member.num_woken_up ∷ Member.new_fd ∷ [])
      (reset_all futex_args (drop_parameters 2 l)))

abbrev set_new_return_item : Member → Layout → Layout
set_new_return_item m l = set_return_item m (reset Member.result l)

abbrev set_woken_up_return_value : Layout → Layout
set_woken_up_return_value l =
    set_new_return_item Member.num_woken_up (emplace Member.num_woken_up l)

-- Members that are emplaced, and the parameters that are added.
abbrev emplace_all : List Member → Layout → Layout
emplace_all [] l = l
emplace_all (m ∷ ms) l = emplace_all ms (emplace m l)

abbrev with_parameters : List Member → Layout → Layout
with_parameters ms l = add_parameters ms (emplace_all ms l)

abbrev woken_requeue : List Member → Layout → Layout
woken_requeue ms l = set_woken_up_return_value (with_parameters ms l)

-- FutexSystemCall::check2ndPass, by the command; it always asks for a second pass.
unfoldable pub futex_layout : Command → Layout → Layout
futex_layout wait l = with_parameters (Member.value ∷ Member.timeout ∷ []) l
futex_layout wait_bitset l =
    add_parameters (Member.value ∷ Member.timeout ∷ Member.unused ∷ Member.bitset ∷ [])
      (emplace_all (Member.value ∷ Member.timeout ∷ Member.bitset ∷ []) l)
futex_layout wake l = woken_requeue (Member.wake_count ∷ []) l
futex_layout wake_bitset l = set_woken_up_return_value (
    add_parameters (Member.wake_count ∷ Member.unused ∷ Member.unused ∷ Member.bitset ∷ [])
      (emplace_all (Member.wake_count ∷ Member.bitset ∷ []) l))
futex_layout create_fd l = set_new_return_item Member.new_fd (
    emplace Member.new_fd
      (add_parameters (Member.fd_sig ∷ []) (emplace_all (Member.fd_sig ∷ Member.new_fd ∷ []) l)))
futex_layout requeue l =
    woken_requeue (Member.wake_count ∷ Member.requeue_limit ∷ Member.futex2_addr ∷ []) l
futex_layout cmp_requeue l =
    woken_requeue
      (Member.wake_count ∷ Member.requeue_limit ∷ Member.futex2_addr ∷ Member.requeue_value ∷ []) l
futex_layout cmp_requeue_pi l =
    woken_requeue
      (Member.wake_count ∷ Member.requeue_limit ∷ Member.futex2_addr ∷ Member.requeue_value ∷ []) l
futex_layout wake_op l =
    woken_requeue
      (Member.wake_count ∷ Member.wake_count2 ∷ Member.futex2_addr ∷ Member.wake_op ∷ []) l
futex_layout lock_pi l =
    add_parameters (Member.unused ∷ Member.timeout ∷ []) (emplace Member.timeout l)
futex_layout lock_pi2 l =
    add_parameters (Member.unused ∷ Member.timeout ∷ []) (emplace Member.timeout l)
futex_layout trylock_pi l = l
futex_layout unlock_pi l = l
futex_layout wait_requeue_pi l =
    with_parameters (Member.value ∷ Member.timeout ∷ Member.futex2_addr ∷ []) l
futex_layout unknown l = l

unfoldable pub futex_check : Command → Layout → Checked
unfolding futex_layout
futex_check c l = second_pass (futex_layout c l)

abbrev pub futex_fixed : List Member
futex_fixed = Member.futex_addr ∷ Member.operation ∷ []

abbrev pub futex_entry : Command → Layout → Checked
futex_entry c l = futex_check c (futex_prepare l)

-- Where the kernel takes an argument of futex(uaddr, op, val, timeout or val2, uaddr2, val3) from.
abbrev pub kernel_position : Member → ℕ
kernel_position Member.futex_addr = 0
kernel_position Member.operation = 1
kernel_position Member.value = 2
kernel_position Member.wake_count = 2
kernel_position Member.fd_sig = 2
kernel_position Member.timeout = 3
kernel_position Member.requeue_limit = 3
kernel_position Member.wake_count2 = 3
kernel_position Member.futex2_addr = 4
kernel_position Member.requeue_value = 5
kernel_position Member.wake_op = 5
kernel_position Member.bitset = 5
kernel_position _ = 6

-- Every parameter from position `i` on, but for the unused ones, is where the kernel takes it from.
abbrev pub in_position : (Member → ℕ) → ℕ → List Member → Bool
in_position p i [] = true
in_position p i (m ∷ ms) = (same_member m Member.unused || p m == i) && in_position p (suc i) ms

abbrev pub FutexEntry : Checked → Type 0
FutexEntry c =
    Kept futex_optional futex_fixed c × (in_position kernel_position 0 (layout_of c).pars ≡ true)

entry_from :
    (c : Command) (rest : List Member) (r : Option Member) (live : Member → Bool)
    → FutexEntry (futex_entry c (after futex_fixed rest r live))
unfolding futex_check futex_prepare
entry_from wait rest r live = ((refl, (_, refl)), refl)
entry_from _ rest r live = ((refl, (_, refl)), refl)

-- Whatever futex calls the object has been through, after the next entry every pointer to a parameter
-- or to the return item can be followed, an optional member holds an item just if it belongs to this
-- command, and every parameter stands where the kernel takes that argument of the command from.
pub futex_entry_lem :
    (c : Command) (l : Layout) → StartsWith futex_fixed l → FutexEntry (futex_entry c l)
futex_entry_lem c l (rest, p) = rw p (entry_from c rest l.ret l.live)
