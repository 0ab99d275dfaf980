-- ===== src/Engine/Inbox.antt =====
-- Which functions leave the stored events and the note of a new process alone: src/Engine.cxx and
-- src/Tracee.cxx.
use clues.Common.{arith, ℕ, ◌≡◌, refl, ◌∙◌, Bool, true, false, Option, List, [], ◌∷◌}
use clues.Outcome.{M, Outcome, returns, throws, Exception, final, ◌>>=◌, catch, when, skip}
use clues.Tracee.State.{Env, Local, ChildState, trapped, event_trap, event_stopped}
use clues.Engine.World.{World, on, create, focus, restore}
use clues.Tracee.Detach.{detach}
use clues.Engine.Registry.{add_tracee, destroy, check_cleanup_tracee}
use clues.Engine.Process.{
  attach_each, attach_threads, handle_attached, handle_stop_event, handle_ptrace_event, handle_trap,
  process_event,
}

-- `p` looks at the stored events and at the note.
module _ {X : Type 0} (p : List (ℕ × ChildState) → Option ℕ → X) where
  abbrev pub view : World → X
  view w = p w.unknown_events w.newly_attached

  abbrev pub Keeps : {A : Type 0} → M World A → Type 0
  Keeps m = (w : World) → view (final (m w)) ≡ view w

  pub bind-Keeps :
      {A B : Type 0} (m : M World A) (k : A → M World B)
      → Keeps m
      → ((a : A) → Keeps (k a))
      → Keeps (m >>= k)
  bind-Keeps {A} m k h g w = go (m w) (h w)
    where
      go :
          (r : Outcome World A)
          → view (final r) ≡ view w
          → view (final (elim r [ returns a t ↦ k a t | throws e t ↦ throws e t ])) ≡ view w
      go (returns a t) e = g a t ∙ e
      go (throws x t) e = e

  pub catch-Keeps :
      {A : Type 0} (m : M World A) (handler : Exception → M World A)
      → Keeps m
      → ((e : Exception) → Keeps (handler e))
      → Keeps (catch m handler)
  catch-Keeps {A} m handler h g w = go (m w) (h w)
    where
      go :
          (r : Outcome World A)
          → view (final r) ≡ view w
          → view (final (elim r [ returns a t ↦ returns a t | throws e t ↦ handler e t ])) ≡ view w
      go (returns a t) e = e
      go (throws x t) e = g x t ∙ e

  pub when-Keeps : (b : Bool) (m : M World (Unit {0})) → Keeps m → Keeps (when b m)
  when-Keeps true m h w = h w
  when-Keeps false m h w = refl

  pub on-Keeps : {A : Type 0} (i : ℕ) (m : M Local A) → Keeps (on i m)
  unfolding on restore
  on-Keeps {A} i m w = go (m (focus i w))
    where
      go :
          (r : Outcome Local A)
          → view (
              final (elim r as (λ x. Outcome World A) [
                | returns a l ↦ returns a (restore i w l)
                | throws e l ↦ throws e (restore i w l)
              ]))
            ≡ view w
      go (returns a l) = refl
      go (throws e l) = refl

  destroy-Keeps : (env : Env) (i : ℕ) → Keeps (destroy env i)
  destroy-Keeps env i =
      catch-Keeps (on i (detach env) >>= λ u. skip) (λ e. skip)
        (bind-Keeps (on i (detach env)) (λ u. skip) (on-Keeps i (detach env)) (λ u v. refl))
        (λ e v. refl)

  add_tracee-Keeps :
      (env : Env) (pid : ℕ) (follow threads : Bool) (sibling : Option ℕ)
      → Keeps (add_tracee env pid follow threads sibling)
  unfolding add_tracee create
  add_tracee-Keeps env pid follow threads sibling w = grind (arith, on-Keeps, destroy-Keeps)

  attach_each-Keeps : (env : Env) (i : ℕ) (pids : List ℕ) → Keeps (attach_each env i pids)
  unfolding attach_each
  attach_each-Keeps env i [] w = refl
  attach_each-Keeps env i (pid ∷ pids) w =
      grind (arith, add_tracee-Keeps, attach_each-Keeps env i pids)

  attach_threads-Keeps : (env : Env) (i : ℕ) → Keeps (attach_threads env i)
  unfolding attach_threads
  attach_threads-Keeps env i w = grind (arith, on-Keeps, attach_each-Keeps)

  handle_attached-Keeps : (env : Env) (i : ℕ) → Keeps (handle_attached env i)
  unfolding handle_attached
  handle_attached-Keeps env i w = grind (arith, on-Keeps, attach_threads-Keeps)

  pub handle_stop_event-Keeps : (env : Env) (i signal : ℕ) → Keeps (handle_stop_event env i signal)
  unfolding handle_stop_event
  handle_stop_event-Keeps env i signal w = grind (arith, on-Keeps, handle_attached-Keeps)

  -- The event of a stop, from its state change to the restart.
  pub process_stop-Keeps :
      (env : Env) (i pid signal : ℕ)
      → Keeps (
          process_event env i
            (record { pid = pid; event = trapped (event_trap event_stopped signal) }))
  unfolding process_event handle_trap handle_ptrace_event
  process_stop-Keeps env i pid signal w = grind (arith, on-Keeps, handle_stop_event-Keeps)

  pub check_cleanup_tracee-Keeps : (env : Env) (pid i : ℕ) → Keeps (check_cleanup_tracee env pid i)
  unfolding check_cleanup_tracee
  check_cleanup_tracee-Keeps env pid i w = grind (arith, on-Keeps)
