-- ===== src/Fd/Exec.antt =====
-- Tracee::syncFDsAfterExec of src/Tracee.cxx: the entries of closed descriptors are erased while the
-- loop walks over the map.
use clues.Common.{
  ℕ, ◌≤◌, ◌<◌, ◌≡◌, refl, ap, ◌↔◌, Bool, true, false, not, ◌&&◌, Option, none, some, List, [], ◌∷◌,
  arith, member, if◌then◌else◌, length, keep_if, Bool-cases, inl, inr,
}
use clues.Fd.{FdInfoMap}

-- The loop: `it = erase(it)` moves on to the successor, and the loop's own `it++` moves on once more.
unfoldable pub sync_loop : List ℕ → FdInfoMap → FdInfoMap
sync_loop left [] = []
sync_loop left (e ∷ []) = if member e.0 left then e ∷ [] else []
sync_loop left (e ∷ n ∷ m) =
    let kept = sync_loop left (n ∷ m) in
    let skipped = sync_loop left m in if member e.0 left then e ∷ kept else n ∷ skipped

-- `none` stands for the ApiError of a process that is gone: the map stays.
unfoldable pub sync_fds_after_exec : Option (List ℕ) → FdInfoMap → FdInfoMap
unfolding sync_loop
sync_fds_after_exec none m = m
sync_fds_after_exec (some left) m = sync_loop left m

-- The entries of the descriptors that are still open.
abbrev pub open_entries : List ℕ → FdInfoMap → FdInfoMap
open_entries left = keep_if (λ e. member e.0 left)

-- Whether two entries that follow one another are both closed.
abbrev pub closed_neighbours : List ℕ → FdInfoMap → Bool
closed_neighbours left [] = false
closed_neighbours left (e ∷ []) = false
closed_neighbours left (e ∷ n ∷ m) =
    if not (member e.0 left) && not (member n.0 left) then true else closed_neighbours left (n ∷ m)

module _ (left : List ℕ) where
  sync_exact :
      (m : FdInfoMap) → closed_neighbours left m ≡ false → sync_loop left m ≡ open_entries left m
  unfolding sync_loop
  sync_exact [] h = refl
  sync_exact (e ∷ []) h = ground arith
  sync_exact (e ∷ n ∷ []) h = ground arith
  sync_exact (e ∷ n ∷ x ∷ m) h = ground (arith, sync_exact (n ∷ x ∷ m), sync_exact (x ∷ m))

  sync_long : (m : FdInfoMap) → length (open_entries left m) ≤ length (sync_loop left m)
  unfolding sync_loop
  sync_long [] = omega arith
  sync_long (e ∷ []) = ground arith
  sync_long (e ∷ n ∷ m) = ground (arith, sync_long (n ∷ m), sync_long m)

  sync_longer :
      (m : FdInfoMap)
      → closed_neighbours left m ≡ true
      → length (open_entries left m) < length (sync_loop left m)
  unfolding sync_loop
  sync_longer [] h = cc
  sync_longer (e ∷ []) h = cc
  sync_longer (e ∷ n ∷ []) h = ground arith
  sync_longer (e ∷ n ∷ x ∷ m) h =
      ground (arith, sync_longer (n ∷ x ∷ m), sync_longer (x ∷ m), sync_long (x ∷ m))

-- The map after an exec holds just the entries of the open descriptors exactly when no two entries
-- that follow one another in it are both closed. Otherwise a closed descriptor stays.
pub sync_fds_after_exec_exact :
    (left : List ℕ) (m : FdInfoMap)
    → (sync_fds_after_exec (some left) m ≡ open_entries left m) ↔ (closed_neighbours left m ≡ false)
unfolding sync_fds_after_exec
sync_fds_after_exec_exact left m = (back, sync_exact left m)
  where
    back : sync_loop left m ≡ open_entries left m → closed_neighbours left m ≡ false
    back e = elim (Bool-cases (closed_neighbours left m)) [
      | inl p ↦ absurd (omega (arith, sync_longer left m p, ap length e))
      | inr p ↦ p
    ]
