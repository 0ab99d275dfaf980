-- ===== src/Syscalls/Variants.antt =====
-- Objects for two forms of one system call, by its number and the ABI: MmapSystemCall, SelectSystemCall,
-- StatFSSystemCall, FStatFSSystemCall and FAdviseSystemCall of src/syscalls/{memory,io,fs}.cxx.
use clues.Common.{
  ◌≡◌, refl, Bool, true, false, not, ==_refl, List, [], ◌∷◌, ◌&&◌, ◌||◌, if◌then◌else◌,
}
use clues.Abi.{Abi, i386, abi_eq}
use clues.Syscalls.Members.{Member, index}
use clues.Syscalls.Layout.{Layout, reset, emplace, set_parameters, same_member}

-- The numbers that are told apart: SystemCallNr.
pub data Nr : Type 0 where
  mmap mmap2 select newselect statfs statfs64 fstatfs fstatfs64 fadvise64 fadvise64_64 : Nr

-- `isOldSelect()`, and whether mmap is the one with a single struct.
abbrev is_select : Nr → Bool
is_select select = true
is_select _ = false

abbrev pub is_old_select : Abi → Nr → Bool
is_old_select abi nr = abi_eq abi i386 && is_select nr

abbrev is_mmap2 : Nr → Bool
is_mmap2 mmap2 = true
is_mmap2 _ = false

abbrev pub is_new_mmap : Abi → Nr → Bool
is_new_mmap abi nr = is_mmap2 nr || not (abi_eq abi i386)

abbrev pub is_statfs64 : Nr → Bool
is_statfs64 statfs64 = true
is_statfs64 _ = false

abbrev pub is_fstatfs64 : Nr → Bool
is_fstatfs64 fstatfs64 = true
is_fstatfs64 _ = false

-- An optional member that is emplaced where it is wanted and not there, and reset where it is there
-- and not wanted; only then are the parameters set anew.
abbrev pub switch : Bool → Member → List Member → List Member → Layout → Layout
switch true m with_it without l = if l.live m then l else set_parameters with_it (emplace m l)
switch false m with_it without l = if l.live m then set_parameters without (reset m l) else l

abbrev pub select_pars : List Member
select_pars =
    Member.nfds ∷ Member.readfds ∷ Member.writefds ∷ Member.exceptfds ∷ Member.timeout ∷ []

abbrev pub mmap_pars : List Member
mmap_pars =
    Member.hint ∷ Member.length ∷ Member.protection ∷ Member.flags ∷ Member.fd ∷ Member.offset ∷ []

abbrev pub old_pars : List Member
old_pars = Member.old_args ∷ []

-- SelectSystemCall, MmapSystemCall, StatFSSystemCall, FStatFSSystemCall: prepareNewSystemCall.
unfoldable pub select_prepare : Abi → Nr → Layout → Layout
select_prepare abi nr l = switch (is_old_select abi nr) Member.old_args old_pars select_pars l

unfoldable pub mmap_prepare : Abi → Nr → Layout → Layout
mmap_prepare abi nr l = switch (not (is_new_mmap abi nr)) Member.old_args old_pars mmap_pars l

abbrev pub statfs_pars : Member → Bool → List Member
statfs_pars m false = m ∷ Member.buf ∷ []
statfs_pars m true = m ∷ Member.size ∷ Member.buf ∷ []

unfoldable pub statfs_prepare : Nr → Layout → Layout
statfs_prepare nr l =
    switch (is_statfs64 nr) Member.size (statfs_pars Member.path true)
      (statfs_pars Member.path false) l

unfoldable pub fstatfs_prepare : Nr → Layout → Layout
fstatfs_prepare nr l =
    switch (is_fstatfs64 nr) Member.size (statfs_pars Member.fd true) (statfs_pars Member.fd false)
      l

-- The form that an object has: with the optional member or without.
pub record Switched (b : Bool) (m : Member) (with_it without : List Member) (l : Layout)
    : Type 0 where
  pub present : l.live m ≡ b
  pub pars : l.pars ≡ (if b then with_it else without)

same_member_refl : (m : Member) → same_member m m ≡ true
same_member_refl m = ==_refl (index m)

module _ (m : Member) (with_it without : List Member) where
  switch_lem :
      (want b : Bool) (l : Layout)
      → Switched b m with_it without l
      → Switched want m with_it without (switch want m with_it without l)
  switch_lem true true l s = rw (s.present) s
  switch_lem true false l s =
      rw (s.present) (record { present = rw (same_member_refl m) refl; pars = refl })
  switch_lem false true l s =
      rw (s.present) (record { present = rw (same_member_refl m) refl; pars = refl })
  switch_lem false false l s = rw (s.present) s

-- Whatever form the object had, at the next call of select or mmap it has the form of that call: the
-- single struct for `select` on i386 and for `mmap` on i386, and the separate parameters otherwise.
pub old_args_lem :
    (abi : Abi) (nr : Nr) (b : Bool) (s m : Layout)
    → Switched b Member.old_args old_pars select_pars s
    → Switched b Member.old_args old_pars mmap_pars m
    → Switched (is_old_select abi nr) Member.old_args old_pars select_pars (select_prepare abi nr s)
      × Switched
          (not (is_new_mmap abi nr))
          Member.old_args
          old_pars
          mmap_pars
          (mmap_prepare abi nr m)
unfolding select_prepare mmap_prepare
old_args_lem abi nr b s m h k = (
  switch_lem Member.old_args old_pars select_pars (is_old_select abi nr) b s h,
  switch_lem Member.old_args old_pars mmap_pars (not (is_new_mmap abi nr)) b m k,
)

-- Likewise for statfs and fstatfs: the size is there just for the calls with 64 in their name.
pub statfs_size_lem :
    (nr : Nr) (b : Bool) (s f : Layout)
    → Switched b Member.size (statfs_pars Member.path true) (statfs_pars Member.path false) s
    → Switched b Member.size (statfs_pars Member.fd true) (statfs_pars Member.fd false) f
    → Switched
        (is_statfs64 nr)
        Member.size
        (statfs_pars Member.path true)
        (statfs_pars Member.path false)
        (statfs_prepare nr s)
      × Switched
          (is_fstatfs64 nr)
          Member.size
          (statfs_pars Member.fd true)
          (statfs_pars Member.fd false)
          (fstatfs_prepare nr f)
unfolding statfs_prepare fstatfs_prepare
statfs_size_lem nr b s f h k = (
  switch_lem Member.size (statfs_pars Member.path true) (statfs_pars Member.path false)
      (is_statfs64 nr) b s h,
  switch_lem Member.size (statfs_pars Member.fd true) (statfs_pars Member.fd false)
      (is_fstatfs64 nr) b f k,
)
