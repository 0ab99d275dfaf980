-- ===== src/Fd/Tracking.antt =====
-- Laws of trackFD, updateFD and dropFD of src/Tracee.cxx.
use clues.Common.{
  ℕ, ◌≡◌, refl, Option, none, some, is_some, [], ◌∷◌, arith, ◌==◌, if◌then◌else◌, Bool-cases, ◌&&◌,
  All, Option-cases, inl, inr,
}
use clues.Common.Maps
use clues.Fd.{
  FdInfo, FdInfoMap, FileNum, no_file, file, track_fd, update_fd, drop_fd, track_file, update_file,
}

-- The entry that `trackFD` leaves: the old one if there is one.
abbrev pub kept_or_new : Option FdInfo → FdInfo → FdInfo
kept_or_new none i = i
kept_or_new (some w) i = w

-- After `trackFD` of a valid number in an ordered map, that number is known: under its old entry if
-- it was known before, and under the new one if not. Every other number is as before.
pub find-track_fd :
    (i : FdInfo) (n k : ℕ) (m : FdInfoMap)
    → i.fd ≡ file n
    → Maps.IsSorted m
    → Maps.find k (track_fd i m)
      ≡ (if k == n then some (kept_or_new (Maps.find n m) i) else Maps.find k m)
unfolding track_fd
find-track_fd i n k m e s = elim (Option-cases (Maps.find n m)) [
  | inl p ↦ ground (arith, Maps.find-insert_self n i m s p, Maps.find-insert_ne n k i m)
  | inr (w, p) ↦ ground (arith, Maps.insert_present n i w m s p)
]

-- `updateFD` replaces the entry of a number that is known, and changes nothing else.
pub find-update_fd :
    (i : FdInfo) (n k : ℕ) (m : FdInfoMap)
    → i.fd ≡ file n
    → Maps.find k (update_fd i m)
      ≡ (if (k == n) && is_some (Maps.find n m) then some i else Maps.find k m)
unfolding update_fd
find-update_fd i n k m e = ground (arith, Maps.find-assign n k i m)

-- `dropFD` forgets its number, and no other.
pub find-drop_fd :
    (n k : ℕ) (m : FdInfoMap)
    → Maps.IsSorted m
    → Maps.find k (drop_fd (file n) m) ≡ (if k == n then none else Maps.find k m)
unfolding drop_fd
find-drop_fd n k m s = Maps.find-erase n k m s

-- An entry whose number is unknown is removed again by `dropFD`, with no trace left.
erase-insert :
    (n : ℕ) (i : FdInfo) (m : FdInfoMap)
    → Maps.IsSorted m
    → Maps.find n m ≡ none
    → Maps.erase n (Maps.insert n i m) ≡ m
unfolding Maps.erase Maps.insert Maps.find
erase-insert n i [] s h = ground arith
erase-insert n i ((j, w) ∷ []) s h = ground arith
erase-insert n i ((j, w) ∷ (l, u) ∷ m) s h = ground (arith, erase-insert n i ((l, u) ∷ m) s.1)

pub drop_fd-track_fd :
    (i : FdInfo) (n : ℕ) (m : FdInfoMap)
    → i.fd ≡ file n
    → Maps.IsSorted m
    → Maps.find n m ≡ none
    → drop_fd i.fd (track_fd i m) ≡ m
unfolding drop_fd track_fd
drop_fd-track_fd i n m e s h = simp e (erase-insert n i m s h)

-- A descriptor without a number is in no map: nothing is tracked, replaced or dropped.
pub track_fd-refused : (i : FdInfo) (m : FdInfoMap) → i.fd ≡ no_file → track_fd i m ≡ m
unfolding track_fd
track_fd-refused i m e = rw e refl

pub update_fd-refused : (i : FdInfo) (m : FdInfoMap) → i.fd ≡ no_file → update_fd i m ≡ m
unfolding update_fd
update_fd-refused i m e = rw e refl

pub drop_fd-refused : (m : FdInfoMap) → drop_fd no_file m ≡ m
unfolding drop_fd
drop_fd-refused m = refl

-- The keys ascend, and each entry stands under its own number.
abbrev pub IsOwn : ℕ × FdInfo → Type 0
IsOwn e = e.1.fd ≡ file e.0

pub record IsKeyed (m : FdInfoMap) : Type 0 where
  pub sorted : Maps.IsSorted m
  pub own : All IsOwn m

pub find-IsOwn :
    (n : ℕ) (i : FdInfo) (m : FdInfoMap) → All IsOwn m → Maps.find n m ≡ some i → i.fd ≡ file n
unfolding Maps.find
find-IsOwn n i [] a h = absurd cc
find-IsOwn n i ((j, w) ∷ m) a h = ground (arith, find-IsOwn n i m a.1)

IsOwn-insert :
    (n : ℕ) (i : FdInfo) (m : FdInfoMap)
    → i.fd ≡ file n
    → All IsOwn m
    → All IsOwn (Maps.insert n i m)
unfolding Maps.insert
IsOwn-insert n i [] e a = (e, tt)
IsOwn-insert n i ((j, w) ∷ m) e a = ground (arith, IsOwn-insert n i m e a.1)

IsOwn-assign :
    (n : ℕ) (i : FdInfo) (m : FdInfoMap)
    → i.fd ≡ file n
    → All IsOwn m
    → All IsOwn (Maps.assign n i m)
unfolding Maps.assign
IsOwn-assign n i [] e a = (e, tt)
IsOwn-assign n i ((j, w) ∷ m) e a = ground (arith, IsOwn-assign n i m e a.1)

IsOwn-erase : (n : ℕ) (m : FdInfoMap) → All IsOwn m → All IsOwn (Maps.erase n m)
unfolding Maps.erase
IsOwn-erase n [] a = tt
IsOwn-erase n ((j, w) ∷ m) a = ground (arith, IsOwn-erase n m a.1)

pub track_fd-IsKeyed : (i : FdInfo) (m : FdInfoMap) → IsKeyed m → IsKeyed (track_fd i m)
unfolding track_fd
track_fd-IsKeyed i m v = go i.fd refl
  where
    go : (f : FileNum) → i.fd ≡ f → IsKeyed (track_file f i m)
    go no_file e = v
    go (file n) e = record {
      sorted = Maps.insert-IsSorted n i m v.sorted;
      own = IsOwn-insert n i m e v.own;
    }

pub update_fd-IsKeyed : (i : FdInfo) (m : FdInfoMap) → IsKeyed m → IsKeyed (update_fd i m)
unfolding update_fd
update_fd-IsKeyed i m v = go i.fd refl
  where
    go : (f : FileNum) → i.fd ≡ f → IsKeyed (update_file f i m)
    go no_file e = v
    go (file n) e = elim (Bool-cases (is_some (Maps.find n m))) [
      | inl p ↦ rw p (record {
        sorted = Maps.assign-IsSorted n i m v.sorted;
        own = IsOwn-assign n i m e v.own;
      })
      | inr p ↦ rw p v
    ]

pub drop_fd-IsKeyed : (f : FileNum) (m : FdInfoMap) → IsKeyed m → IsKeyed (drop_fd f m)
unfolding drop_fd
drop_fd-IsKeyed no_file m v = v
drop_fd-IsKeyed (file n) m v = record {
  sorted = Maps.erase-IsSorted n m v.sorted;
  own = IsOwn-erase n m v.own;
}
