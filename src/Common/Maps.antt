-- ===== src/Common/Maps.antt =====
-- `std::map` with a number as its key: an association list in the order of the keys.
use Prim.Native.Nat.{ℕ, ◌<◌}
use mathlib.Core.Path.{◌≡◌, refl}
use mathlib.Core.Logic.{◌≢◌}
use mathlib.Core.List.{List, [], ◌∷◌}
use mathlib.Core.Option.{Option, none, some}
use native.Mathlib.Omega.{arith}
use clues.Common.Tests.{◌==◌, ltb, if◌then◌else◌}

module _ {ℓ} {V : Type ℓ} where
  unfoldable pub find : ℕ → List (ℕ × V) → Option V
  find k [] = none
  find k ((j, v) ∷ m) = if k == j then some v else find k m

  -- `map.insert({k, v})`: an entry that is already there stays.
  unfoldable pub insert : ℕ → V → List (ℕ × V) → List (ℕ × V)
  insert k v [] = (k, v) ∷ []
  insert k v ((j, w) ∷ m) =
      if k == j then (j, w) ∷ m else if ltb k j then (k, v) ∷ (j, w) ∷ m else (j, w) ∷ insert k v m

  -- `map[k] = v`: an entry that is already there is replaced.
  unfoldable pub assign : ℕ → V → List (ℕ × V) → List (ℕ × V)
  assign k v [] = (k, v) ∷ []
  assign k v ((j, w) ∷ m) =
      if k == j then (j, v) ∷ m else if ltb k j then (k, v) ∷ (j, w) ∷ m else (j, w) ∷ assign k v m

  -- `map.erase(k)`.
  unfoldable pub erase : ℕ → List (ℕ × V) → List (ℕ × V)
  erase k [] = []
  erase k ((j, w) ∷ m) = if k == j then m else (j, w) ∷ erase k m

  -- Every key lies above `lo`, and the keys ascend.
  abbrev pub Above : ℕ → List (ℕ × V) → Type 0
  Above lo [] = Unit {0}
  Above lo ((j, w) ∷ m) = (lo < j) × Above j m

  abbrev pub IsSorted : List (ℕ × V) → Type 0
  IsSorted [] = Unit {0}
  IsSorted ((j, w) ∷ m) = Above j m

module _ {ℓ} {V : Type ℓ} where
  pub Above-mono : {l h : ℕ} (m : List (ℕ × V)) → l < h → Above h m → Above l m
  Above-mono [] lt a = tt
  Above-mono ((j, w) ∷ m) lt a = (omega arith, a.1)

  pub find-Above : (k lo : ℕ) (m : List (ℕ × V)) → Above lo m → k < lo → find k m ≡ none
  unfolding find
  find-Above k lo [] a h = refl
  find-Above k lo ((j, w) ∷ m) a h = ground (arith, find-Above k j m a.1)

  pub find_from : (k : ℕ) (m : List (ℕ × V)) → Above k m → find k m ≡ none
  unfolding find
  find_from k [] a = refl
  find_from k ((j, w) ∷ m) a = ground (arith, find-Above k j m a.1)

  pub insert-Above :
      (lo k : ℕ) (v : V) (m : List (ℕ × V)) → lo < k → Above lo m → Above lo (insert k v m)
  unfolding insert
  insert-Above lo k v [] h a = (h, tt)
  insert-Above lo k v ((j, w) ∷ m) h a = ground (arith, insert-Above j k v m)

  pub insert-IsSorted : (k : ℕ) (v : V) (m : List (ℕ × V)) → IsSorted m → IsSorted (insert k v m)
  unfolding insert
  insert-IsSorted k v [] a = tt
  insert-IsSorted k v ((j, w) ∷ m) a = ground (arith, insert-Above j k v m)

  pub assign-Above :
      (lo k : ℕ) (v : V) (m : List (ℕ × V)) → lo < k → Above lo m → Above lo (assign k v m)
  unfolding assign
  assign-Above lo k v [] h a = (h, tt)
  assign-Above lo k v ((j, w) ∷ m) h a = ground (arith, assign-Above j k v m)

  pub assign-IsSorted : (k : ℕ) (v : V) (m : List (ℕ × V)) → IsSorted m → IsSorted (assign k v m)
  unfolding assign
  assign-IsSorted k v [] a = tt
  assign-IsSorted k v ((j, w) ∷ m) a = ground (arith, assign-Above j k v m)

  pub erase-Above : (lo k : ℕ) (m : List (ℕ × V)) → Above lo m → Above lo (erase k m)
  unfolding erase
  erase-Above lo k [] a = tt
  erase-Above lo k ((j, w) ∷ m) a =
      ground (arith, erase-Above j k m a.1, Above-mono {l = lo} {h = j} m)

  pub erase-IsSorted : (k : ℕ) (m : List (ℕ × V)) → IsSorted m → IsSorted (erase k m)
  unfolding erase
  erase-IsSorted k [] a = tt
  erase-IsSorted k ((j, w) ∷ []) a = ground arith
  erase-IsSorted k ((j, w) ∷ (i, u) ∷ m) a = ground (arith, erase-Above j k ((i, u) ∷ m) a)

  pub find-insert_ne :
      (k j : ℕ) (v : V) (m : List (ℕ × V)) → j ≢ k → find j (insert k v m) ≡ find j m
  unfolding find insert
  find-insert_ne k j v [] h = ground arith
  find-insert_ne k j v ((i, w) ∷ m) h = ground (arith, find-insert_ne k j v m h)

  pub find-insert_self :
      (k : ℕ) (v : V) (m : List (ℕ × V))
      → IsSorted m
      → find k m ≡ none
      → find k (insert k v m) ≡ some v
  unfolding find insert
  find-insert_self k v [] a h = ground arith
  find-insert_self k v ((i, w) ∷ []) a h = ground arith
  find-insert_self k v ((i, w) ∷ (l, u) ∷ m) a h =
      ground (arith, find-insert_self k v ((l, u) ∷ m) a.1)

  -- An insertion under a key that is there changes nothing.
  pub insert_present :
      (k : ℕ) (v w : V) (m : List (ℕ × V)) → IsSorted m → find k m ≡ some w → insert k v m ≡ m
  unfolding find insert
  insert_present k v x [] a h = cc
  insert_present k v x ((i, w) ∷ []) a h = ground arith
  insert_present k v x ((i, w) ∷ (l, u) ∷ m) a h =
      ground (arith, insert_present k v x ((l, u) ∷ m) a.1, find-Above k i ((l, u) ∷ m) a)

  pub find-assign :
      (k j : ℕ) (v : V) (m : List (ℕ × V))
      → find j (assign k v m) ≡ (if j == k then some v else find j m)
  unfolding find assign
  find-assign k j v [] = refl
  find-assign k j v ((i, w) ∷ m) = ground (arith, find-assign k j v m)

  pub find-erase :
      (k j : ℕ) (m : List (ℕ × V))
      → IsSorted m
      → find j (erase k m) ≡ (if j == k then none else find j m)
  unfolding find erase
  find-erase k j [] a = ground arith
  find-erase k j ((i, w) ∷ []) a = ground arith
  find-erase k j ((i, w) ∷ (l, u) ∷ m) a =
      ground (arith, find-erase k j ((l, u) ∷ m) a.1, find_from i ((l, u) ∷ m) a)
