-- ===== src/Syscalls/Layout.antt =====
-- The parameters of a system call object as pointers to its members: m_pars, m_return and the
-- std::optional members of include/SystemCall.hxx and of the classes under include/syscalls.
use clues.Common.{
  ℕ, Bool, true, false, Option, none, some, List, [], ◌∷◌, ◌++◌, ◌==◌, ◌&&◌, ◌||◌, not,
  if◌then◌else◌, take, length, ltb, ◌≡◌,
}
use clues.Syscalls.Members.{Member, index}

abbrev pub same_member : Member → Member → Bool
same_member a b = index a == index b

abbrev pub has_member : Member → List Member → Bool
has_member m [] = false
has_member m (x ∷ xs) = same_member m x || has_member m xs

-- `pars` are the pointers of m_pars and `ret` is m_return, none for a null pointer. `live` says which
-- optional members hold an item.
pub record Layout : Type 0 where
  pub pars : List Member
  pub ret : Option Member
  pub live : Member → Bool

-- `m.emplace(...)` and `m.reset()`.
abbrev pub emplace : Member → Layout → Layout
emplace m l = record l { live = λ x. if same_member x m then true else l.live x }

abbrev pub reset : Member → Layout → Layout
reset m l = record l { live = λ x. if same_member x m then false else l.live x }

-- A row of `reset` calls.
abbrev pub reset_all : List Member → Layout → Layout
reset_all ms l = record l { live = λ x. if has_member x ms then false else l.live x }

-- `dropParameters`, `addParameters`, `setParameters`, `setReturnItem`.
abbrev pub drop_parameters : ℕ → Layout → Layout
drop_parameters n l = record l { pars = take n l.pars }

abbrev pub add_parameters : List Member → Layout → Layout
add_parameters ms l = record l { pars = l.pars ++ ms }

abbrev pub set_parameters : List Member → Layout → Layout
set_parameters ms l = record l { pars = ms }

abbrev pub set_return_item : Member → Layout → Layout
set_return_item m l = record l { ret = some m }

-- An optional member is given an item and made a parameter, or the return item.
abbrev pub with_parameter : Member → Layout → Layout
with_parameter m l = add_parameters (m ∷ []) (emplace m l)

abbrev pub with_return : Member → Layout → Layout
with_return m l = set_return_item m (emplace m l)

-- The result of `check2ndPass`: true, false, or a RuntimeError.
pub data Checked : Type 0 where
  second_pass one_pass bad_call : Layout → Checked

abbrev pub layout_of : Checked → Layout
layout_of (second_pass l) = l
layout_of (one_pass l) = l
layout_of (bad_call l) = l

-- Whether a pointer to a member can be followed: a member that is no optional, or one with an item.
abbrev pub can_follow : List Member → Layout → Member → Bool
can_follow optional l m = if has_member m optional then l.live m else true

abbrev pub all_of : (Member → Bool) → List Member → Bool
all_of p [] = true
all_of p (m ∷ ms) = p m && all_of p ms

-- Whether a member is pointed to, as a parameter or as the return item.
abbrev pub returns_member : Member → Option Member → Bool
returns_member m none = false
returns_member m (some r) = same_member m r

abbrev pub in_use : Layout → Member → Bool
in_use l m = has_member m l.pars || returns_member m l.ret

abbrev return_followed : List Member → Layout → Option Member → Bool
return_followed optional l none = false
return_followed optional l (some r) = can_follow optional l r

abbrev iff : Bool → Bool → Bool
iff true b = b
iff false b = not b

-- Every pointer can be followed, the return item among them, and an optional member holds an item
-- just if it is pointed to. `optional` are the optional members of the class.
abbrev pub is_sound : List Member → Layout → Bool
is_sound optional l =
    all_of (can_follow optional l) l.pars
    && return_followed optional l l.ret
    && all_of (λ m. iff (l.live m) (in_use l m)) optional

-- No more than the six arguments of a system call.
abbrev pub fits : Layout → Bool
fits l = ltb (length l.pars) 7

-- An object that may have been through any calls: its fixed parameters come first.
abbrev pub StartsWith : List Member → Layout → Type 0
StartsWith fixed l = (rest : List Member) × (l.pars ≡ fixed ++ rest)

abbrev pub after : List Member → List Member → Option Member → (Member → Bool) → Layout
after fixed rest r live = record { pars = fixed ++ rest; ret = r; live = live }

-- What a call of `check2ndPass` leaves: a sound layout with the fixed parameters in front, or an
-- exception where only the fixed parameters are there.
abbrev pub Sound : List Member → Layout → Type 0
Sound optional l = (is_sound optional l && fits l) ≡ true

abbrev pub Kept : List Member → List Member → Checked → Type 0
Kept optional fixed (second_pass l) = Sound optional l × StartsWith fixed l
Kept optional fixed (one_pass l) = Sound optional l × (l.pars ≡ fixed)
Kept optional fixed (bad_call l) = l.pars ≡ fixed
