-- ===== src/Syscalls/Opened.antt =====
-- The map of tracked descriptors and the kernel's table of open ones.
use clues.Common.{
  ◌≡◌, refl, fun_ext, ap, Bool, true, false, List, [], ◌∷◌, is_some, arith, if◌then◌else◌,
  Bool-cases, inl, inr,
}
use clues.Common.Maps
use clues.Outcome.{Response, ok, fails}
use clues.Fd.{FdInfo, FdInfoMap, FileNum, no_file, file, track_fd, update_fd, drop_fd, find_fd}
use clues.Fd.Tracking
use clues.Syscalls.Sockets.{same_file, track_listed}
use clues.Syscalls.Dispatch.{Table, opens, closes}

-- The descriptors that the library takes for open.
unfoldable pub opened : FdInfoMap → Table
opened m k = is_some (Maps.find k m)

module _ (i : FdInfo) (m : FdInfoMap) (v : Tracking.IsKeyed m) where
  pub opened-track_fd : (f : FileNum) → i.fd ≡ f → opened (track_fd i m) ≡ opens f (opened m)
  unfolding opened
  opened-track_fd no_file e = ap opened (Tracking.track_fd-refused i m e)
  opened-track_fd (file n) e =
      fun_ext λ k. rw (Tracking.find-track_fd i n k m e v.sorted) (ground arith)

  opened-update_file : (f : FileNum) → i.fd ≡ f → opened (update_fd i m) ≡ opened m
  unfolding opened
  opened-update_file no_file e = ap opened (Tracking.update_fd-refused i m e)
  opened-update_file (file n) e = fun_ext λ k. rw (Tracking.find-update_fd i n k m e) (ground arith)

  pub opened-update_fd : opened (update_fd i m) ≡ opened m
  opened-update_fd = opened-update_file i.fd refl

pub opened-drop_fd :
    (f : FileNum) (m : FdInfoMap) → Tracking.IsKeyed m → opened (drop_fd f m) ≡ closes f (opened m)
unfolding opened
opened-drop_fd no_file m v = ap opened (Tracking.drop_fd-refused m)
opened-drop_fd (file n) m v = fun_ext λ k. rw (Tracking.find-drop_fd n k m v.sorted) (ground arith)

-- What a call depends on: the source of a copy is known, and the lookup of a new descriptor finds it.
abbrev pub Found : FileNum → FdInfoMap → Type 0
Found n m = is_some (find_fd n m) ≡ true

abbrev pub has_entry : FileNum → List FdInfo → Bool
has_entry n [] = false
has_entry n (i ∷ is) = if same_file i.fd n then true else has_entry n is

abbrev pub Listed : FileNum → Response (List FdInfo) → Type 0
Listed n (ok infos) = has_entry n infos ≡ true
Listed n (fails e) = Unit

pub same_file→≡ : (a b : FileNum) → same_file a b ≡ true → a ≡ b
same_file→≡ no_file no_file h = refl
same_file→≡ no_file (file b) h = absurd cc
same_file→≡ (file a) no_file h = absurd cc
same_file→≡ (file a) (file b) h = ap file (ground arith)

pub opened-track_listed :
    (n : FileNum) (is : List FdInfo) (m : FdInfoMap)
    → Tracking.IsKeyed m
    → has_entry n is ≡ true
    → opened (track_listed n is m) ≡ opens n (opened m)
unfolding track_listed
opened-track_listed n [] m v h = absurd cc
opened-track_listed n (i ∷ is) m v h = elim (Bool-cases (same_file i.fd n)) [
  | inl p ↦ rw p (opened-track_fd i m v n (same_file→≡ i.fd n p))
  | inr p ↦ rw p (opened-track_listed n is m v (ground arith))
]
