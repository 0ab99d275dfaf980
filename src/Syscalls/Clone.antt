-- ===== src/Syscalls/Clone.antt =====
-- CloneSystemCall of src/syscalls/process.cxx: the order of its parameters by the ABI.
use clues.Common.{
  ℕ, zero, suc, ◌≡◌, refl, Bool, true, false, some, List, [], ◌∷◌, ◌&&◌, length, not, ltb,
  if◌then◌else◌,
}
use clues.Abi.{Abi, unknown, x86_64, i386, x32, aarch64}
use clues.Syscalls.Members.{Member}
use clues.Syscalls.Layout.{
  Layout, reset_all, emplace, drop_parameters, add_parameters, with_parameter, Checked, second_pass,
  one_pass, layout_of, Kept, StartsWith, after,
}
use clues.Syscalls.Futex.{in_position}

-- The bits of cosmos::CloneFlags that are read.
pub record CloneFlags : Type 0 where
  pub parent_settid : Bool
  pub pidfd : Bool
  pub child_settid : Bool
  pub settls : Bool

abbrev pub clone_optional : List Member
clone_optional = Member.parent_tid ∷ Member.pidfd ∷ Member.child_tid ∷ Member.tls ∷ []

unfoldable pub clone_prepare : Layout → Layout
clone_prepare l = reset_all clone_optional (drop_parameters 2 l)

-- `maybe_add_unused_par`: the loop, with `need_index` rounds as its fuel.
unfoldable pub add_unused : ℕ → ℕ → Layout → Layout
add_unused zero need l = l
add_unused (suc fuel) need l =
    let next = add_unused fuel need (add_parameters (Member.unused ∷ []) l) in
    if ltb (length l.pars) need then next else l

-- `maybe_add_settid_par` and `maybe_add_settls_par`.
unfoldable pub maybe_add : Bool → Member → ℕ → Layout → Layout
unfolding add_unused
maybe_add false m pos l = l
maybe_add true m pos l = add_parameters (m ∷ []) (add_unused pos pos (emplace m l))

abbrev parent_par : Bool → Bool → Layout → Layout
parent_par true b l = with_parameter Member.parent_tid l
parent_par false true l = with_parameter Member.pidfd l
parent_par false false l = l

abbrev last_pars : Abi → CloneFlags → Layout → Layout
last_pars x86_64 f l =
    maybe_add f.settls Member.tls 4 (maybe_add f.child_settid Member.child_tid 3 l)
last_pars x32 f l = maybe_add f.settls Member.tls 4 (maybe_add f.child_settid Member.child_tid 3 l)
last_pars aarch64 f l =
    maybe_add f.child_settid Member.child_tid 4 (maybe_add f.settls Member.tls 3 l)
last_pars i386 f l = maybe_add f.child_settid Member.child_tid 4 (maybe_add f.settls Member.tls 3 l)
last_pars unknown f l = l

abbrev checked_by_size : Layout → Checked
checked_by_size l = if ltb 2 (length l.pars) then second_pass l else one_pass l

-- CloneSystemCall::check2ndPass.
unfoldable pub clone_check : Abi → CloneFlags → Layout → Checked
unfolding maybe_add
clone_check abi f l = checked_by_size (last_pars abi f (parent_par f.parent_settid f.pidfd l))

abbrev pub clone_fixed : List Member
clone_fixed = Member.flags ∷ Member.stack ∷ []

abbrev pub clone_entry : Abi → CloneFlags → Layout → Checked
clone_entry abi f l = clone_check abi f (clone_prepare l)

-- The order of clone's arguments in the kernel: CONFIG_CLONE_BACKWARDS on i386 and aarch64.
abbrev backwards : Abi → Bool
backwards i386 = true
backwards aarch64 = true
backwards _ = false

abbrev pub clone_position : Abi → Member → ℕ
clone_position abi Member.flags = 0
clone_position abi Member.stack = 1
clone_position abi Member.parent_tid = 2
clone_position abi Member.pidfd = 2
clone_position abi Member.child_tid = if backwards abi then 4 else 3
clone_position abi Member.tls = if backwards abi then 3 else 4
clone_position abi _ = 5

-- The last two depend on the ABI too.
abbrev known : Abi → Bool
known unknown = false
known _ = true

abbrev pub CloneEntry : Abi → CloneFlags → Checked → Type 0
CloneEntry abi f c =
    Kept clone_optional clone_fixed c
    × (in_position (clone_position abi) 0 (layout_of c).pars ≡ true)
    × ((layout_of c).live Member.parent_tid ≡ f.parent_settid)
    × ((layout_of c).live Member.pidfd ≡ (not f.parent_settid && f.pidfd))
    × ((layout_of c).live Member.child_tid ≡ (known abi && f.child_settid))
    × ((layout_of c).live Member.tls ≡ (known abi && f.settls))

entry_from :
    (abi : Abi) (a b c d : Bool) (rest : List Member) (live : Member → Bool)
    → CloneEntry abi
        (record { parent_settid = a; pidfd = b; child_settid = c; settls = d })
        (clone_entry abi
          (record { parent_settid = a; pidfd = b; child_settid = c; settls = d })
          (after clone_fixed rest (some Member.new_pid) live))
unfolding clone_check clone_prepare
entry_from x86_64 false false false false rest live = ((refl, refl), refl, refl, refl, refl, refl)
entry_from x32 false false false false rest live = ((refl, refl), refl, refl, refl, refl, refl)
entry_from aarch64 false false false false rest live = ((refl, refl), refl, refl, refl, refl, refl)
entry_from i386 false false false false rest live = ((refl, refl), refl, refl, refl, refl, refl)
entry_from unknown false false c d rest live = ((refl, refl), refl, refl, refl, refl, refl)
entry_from unknown false true c d rest live = ((refl, (_, refl)), refl, refl, refl, refl, refl)
entry_from unknown true b c d rest live = ((refl, (_, refl)), refl, refl, refl, refl, refl)
entry_from _ true b true true rest live = ((refl, (_, refl)), refl, refl, refl, refl, refl)
entry_from _ true b true false rest live = ((refl, (_, refl)), refl, refl, refl, refl, refl)
entry_from _ true b false true rest live = ((refl, (_, refl)), refl, refl, refl, refl, refl)
entry_from _ true b false false rest live = ((refl, (_, refl)), refl, refl, refl, refl, refl)
entry_from _ false true true true rest live = ((refl, (_, refl)), refl, refl, refl, refl, refl)
entry_from _ false true true false rest live = ((refl, (_, refl)), refl, refl, refl, refl, refl)
entry_from _ false true false true rest live = ((refl, (_, refl)), refl, refl, refl, refl, refl)
entry_from _ false true false false rest live = ((refl, (_, refl)), refl, refl, refl, refl, refl)
entry_from _ false false true true rest live = ((refl, (_, refl)), refl, refl, refl, refl, refl)
entry_from _ false false true false rest live = ((refl, (_, refl)), refl, refl, refl, refl, refl)
entry_from _ false false false true rest live = ((refl, (_, refl)), refl, refl, refl, refl, refl)

-- Whatever calls of clone the object has been through: after the next entry every pointer to a
-- parameter can be followed, an optional member holds an item just if it is a parameter, every
-- parameter stands where the kernel of this ABI takes that argument from, and each optional parameter
-- is there just if its flag is set: the parent's thread id, the pidfd where that one is not, and the
-- child's thread id and the thread local storage, where the ABI is a known one.
pub clone_entry_lem :
    (abi : Abi) (f : CloneFlags) (l : Layout)
    → StartsWith clone_fixed l
    → l.ret ≡ some Member.new_pid
    → CloneEntry abi f (clone_entry abi f l)
clone_entry_lem abi f l (rest, p) e =
    rw (p, e) (entry_from abi f.parent_settid f.pidfd f.child_settid f.settls rest l.live)
