-- ===== src/Syscalls/FAdvise.antt =====
-- FAdviseSystemCall of src/syscalls/fs.cxx: the parameters of fadvise64 and fadvise64_64 by the ABI.
use clues.Common.{
  ◌≡◌, refl, Bool, true, false, Option, none, some, List, [], ◌∷◌, if◌then◌else◌, Bool-cases, inl,
  inr,
}
use clues.Abi.{Abi, x86_64, i386, aarch64}
use clues.Syscalls.Members.{Member}
use clues.Syscalls.Layout.{Layout, reset, reset_all, emplace, set_parameters, Sound}

-- The members, and m_is_native_64. A variant holds one of its two items: `emplace<0>` and `emplace<1>`.
pub record FAdvise : Type 0 where
  pub layout : Layout
  pub native_64 : Bool

abbrev emplace_off0 : Layout → Layout
emplace_off0 l = emplace Member.offset (reset_all (Member.offset64 ∷ Member.offset64_lower ∷ []) l)

abbrev emplace_off1 : Layout → Layout
emplace_off1 l = emplace Member.offset64 (emplace Member.offset64_lower (reset Member.offset l))

abbrev emplace_size0 : Layout → Layout
emplace_size0 l = emplace Member.size (reset_all (Member.size64 ∷ Member.size64_lower ∷ []) l)

abbrev emplace_size1 : Layout → Layout
emplace_size1 l = emplace Member.size64 (emplace Member.size64_lower (reset Member.size l))

abbrev pub native_pars : List Member
native_pars = Member.fd ∷ Member.offset ∷ Member.size ∷ Member.advice ∷ []

-- `setupPars64`.
unfoldable pub setup_pars64 : FAdvise → FAdvise
setup_pars64 s = record {
  layout = set_parameters native_pars (emplace_size0 (emplace_off0 s.layout));
  native_64 = true;
}

-- The parameters on i386, for fadvise64_64 and for fadvise64.
abbrev pub i386_pars : Bool → List Member
i386_pars true =
    Member.fd ∷ Member.offset64_lower ∷ Member.offset64 ∷ Member.size64_lower ∷ Member.size64
    ∷ Member.advice ∷ []
i386_pars false =
    Member.fd ∷ Member.offset64_lower ∷ Member.offset64 ∷ Member.size ∷ Member.advice ∷ []

abbrev emplace_size : Bool → Layout → Layout
emplace_size true l = emplace_size1 l
emplace_size false l = emplace_size0 l

-- `prepareNewSystemCall`; none where it throws a RuntimeError. `size_is_64` says that the number is
-- FADVISE64_64.
unfoldable pub fadvise_prepare : Abi → Bool → FAdvise → Option FAdvise
unfolding setup_pars64
fadvise_prepare aarch64 size_is_64 s = some s
fadvise_prepare x86_64 size_is_64 s = some (if s.native_64 then s else setup_pars64 s)
fadvise_prepare i386 size_is_64 s = some (record {
  layout = set_parameters (i386_pars size_is_64) (emplace_off1 (emplace_size size_is_64 s.layout));
  native_64 = false;
})
fadvise_prepare _ size_is_64 s = none

abbrev fadvise_optional : List Member
fadvise_optional =
    Member.offset ∷ Member.offset64 ∷ Member.offset64_lower ∷ Member.size ∷ Member.size64
    ∷ Member.size64_lower ∷ []

-- A sound object that has the native parameters if its flag says so.
pub record IsFAdvise (s : FAdvise) : Type 0 where
  pub sound : Sound fadvise_optional s.layout
  pub native : s.native_64 ≡ true → s.layout.pars ≡ native_pars

-- What the kernel of each ABI takes, in its order.
abbrev pub kernel_pars : Abi → Bool → List Member
kernel_pars i386 b = i386_pars b
kernel_pars _ b = native_pars

abbrev Supported : Abi → Type 0
Supported x86_64 = Unit
Supported i386 = Unit
Supported _ = ⊥

-- Whatever calls the object has been through on x86_64, as a native call or as one of i386: after
-- `prepareNewSystemCall` of the next call it has the parameters that this ABI and this number take,
-- all of them can be followed, and each variant holds just the item that is a parameter.
pub fadvise_prepare_lem :
    (abi : Abi) (b : Bool) (s : FAdvise)
    → Supported abi
    → s.layout.ret ≡ some Member.result
    → IsFAdvise s
    → (t : FAdvise) × (fadvise_prepare abi b s ≡ some t)
      × IsFAdvise t
      × (t.layout.pars ≡ kernel_pars abi b)
unfolding fadvise_prepare setup_pars64
fadvise_prepare_lem x86_64 b s h r v = elim (Bool-cases s.native_64) [
  | inl p ↦ (s, rw p refl, v, v.native p)
  | inr p ↦ (setup_pars64 s, rw p refl, record { sound = rw r refl; native = λ e. refl }, refl)
]
fadvise_prepare_lem i386 true s h r v =
    (_, refl, record { sound = rw r refl; native = λ e. absurd cc }, refl)
fadvise_prepare_lem i386 false s h r v =
    (_, refl, record { sound = rw r refl; native = λ e. absurd cc }, refl)
fadvise_prepare_lem _ b s h r v = absurd h
