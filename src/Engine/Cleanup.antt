-- ===== src/Engine/Cleanup.antt =====
-- The removal of dead tracees: checkCleanupTracee and handleNoChildren of src/Engine.cxx.
use clues.Common.{
  ℕ, ◌≡◌, ◌≢◌, refl, true, false, none, List, ◌∷◌, ◌==◌, arith, Bool-cases, inl, inr, ap, sym, ◌∙◌,
  ==_refl, ==_iff, fun_ext,
}
use clues.Common.Maps
use clues.Outcome.{returns, throws, fails, final, invalid_iterator, errno_search}
use clues.Tracee.State.{Env, dead, is_child, is_gone}
use clues.Tracee.Detach.{do_detach, detach}
use clues.Tracee.Release.{Detached, do_detach_lem}
use clues.Engine.World.{World, on, put, focus, restore}
use clues.Engine.Registry.{check_cleanup_tracee}
use clues.Engine.Loop.{handle_no_children, clean_up_all}

dead_cleaned :
    (env : Env) (pid i : ℕ) (w : World)
    → (w.objects i).state ≡ dead
    → do_detach env (focus i w) ≡ returns tt (final (do_detach env (focus i w)))
    → check_cleanup_tracee env pid i w
      ≡ returns tt (record (restore i w (final (do_detach env (focus i w)))) {
        tracees = Maps.erase pid w.tracees;
      })
unfolding check_cleanup_tracee on restore
dead_cleaned env pid i w d e = grind (arith)

-- A tracee that is no child is taken out of the table when it is found dead, and its process is gone.
pub check_cleanup_tracee-dead :
    (env : Env) (pid i : ℕ) (w : World)
    → Maps.IsSorted w.tracees
    → is_child (w.objects i).kind ≡ false
    → (w.objects i).state ≡ dead
    → env.detach w.clock (w.objects i).pid ≡ fails errno_search
    → let r = final (check_cleanup_tracee env pid i w) in
      (check_cleanup_tracee env pid i w ≡ returns tt r)
      × (Maps.find pid r.tracees ≡ none)
      × ((p : ℕ) → p ≢ pid → Maps.find p r.tracees ≡ Maps.find p w.tracees)
      × ((r.objects i).pid ≡ none)
unfolding focus restore
check_cleanup_tracee-dead env pid i w s c d e = rw (dead_cleaned env pid i w d gone.0) (
  refl,
  Maps.find-erase pid pid w.tracees s ∙ rw (==_refl pid) refl,
  λ p q. Maps.find-erase pid p w.tracees s ∙ ground arith,
  rw (==_refl i) gone.2,
)
  where
    gone : Detached (fails errno_search) (focus i w) (do_detach env (focus i w))
    gone = do_detach_lem env (fails errno_search) (focus i w) c e

-- To put a value back where it is changes nothing.
put_same : {A : Type 0} (f : ℕ → A) (i : ℕ) → put f i (f i) ≡ f
put_same f i = fun_ext (λ j. elim (Bool-cases (j == i)) [
  | inl e ↦ rw e (ap f (sym ((==_iff j i).0 e)))
  | inr e ↦ rw e refl
])

restore-focus : (i : ℕ) (w : World) → restore i w (focus i w) ≡ w
unfolding focus restore
restore-focus i w =
    ap (λ f. record w { objects = f; datas = put w.datas d (w.datas d) }) (put_same w.objects i)
    ∙ ap (λ f. record w { datas = f }) (put_same w.datas d)
  where
    d : ℕ
    d = (w.objects i).process_data

-- A dead tracee is already released: `detach` answers true and does nothing to it.
on-gone :
    (env : Env) (i : ℕ) (w : World)
    → is_gone (w.objects i).state ≡ true
    → on i (detach env) w ≡ returns true (restore i w (focus i w))
unfolding on detach focus restore
on-gone env i w g = grind (arith)

detach-gone :
    (env : Env) (i : ℕ) (w : World)
    → is_gone (w.objects i).state ≡ true
    → on i (detach env) w ≡ returns true w
detach-gone env i w g = on-gone env i w g ∙ ap (returns true) (restore-focus i w)

-- When no children are left to wait for, and the first tracee in the table is dead and no ChildTracee, and
-- the kernel answers PTRACE_DETACH for it with ESRCH, then
-- the loop over the tracees erases its entry and goes on from there with an iterator that is invalid.
pub handle_no_children-invalid :
    (env : Env) (pid i : ℕ) (rest : List (ℕ × ℕ)) (w : World)
    → w.tracees ≡ (pid, i) ∷ rest
    → Maps.IsSorted w.tracees
    → is_child (w.objects i).kind ≡ false
    → (w.objects i).state ≡ dead
    → env.detach w.clock (w.objects i).pid ≡ fails errno_search
    → handle_no_children env w ≡ throws invalid_iterator (final (handle_no_children env w))
unfolding handle_no_children clean_up_all
handle_no_children-invalid env pid i rest w t s c d e =
    ap (λ m. clean_up_all env m w) t
    ∙ first
    ∙ ap (λ m. throws invalid_iterator (final (clean_up_all env m w))) (sym t)
  where
    first :
        clean_up_all env ((pid, i) ∷ rest) w
        ≡ throws invalid_iterator (final (clean_up_all env ((pid, i) ∷ rest) w))
    first = grind (
      arith,
      detach-gone env i w (ap is_gone d),
      (check_cleanup_tracee-dead env pid i w s c d e).0,
      (check_cleanup_tracee-dead env pid i w s c d e).1,
    )
