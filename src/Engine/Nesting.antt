-- ===== src/Engine/Nesting.antt =====
-- Events within events: checkUnknownEvents calls handleEvent of src/Engine.cxx for a stored event.
use clues.Common.{arith, ℕ, suc, ◌≡◌, refl, ap, sym, subst, ◌∙◌, Option, none, some, List}
use clues.Common.Maps
use clues.Outcome.{M, Outcome, returns, throws, Exception, final, catch, ◌>>◌, pure}
use clues.Tracee.State.{Env, ChildState, trapped, event_trap, event_stopped}
use clues.Engine.World.{World}
use clues.Engine.Registry.{check_cleanup_tracee}
use clues.Engine.Process.{process_event}
use clues.Engine.Inbox.{Keeps, view, catch-Keeps, process_stop-Keeps, check_cleanup_tracee-Keeps}
use clues.Engine.Stored.{stored, process_event-KeepsStored}
use clues.Engine.Loop.{
  Decision, done, check_unknown_events, handle_known, handle_event, handle_found, log_api_error,
  check_pid, deliver_stored,
}

-- A stop, as it is stored for a process that is not known yet.
abbrev pub IsStop : ChildState → Type 0
IsStop info = (signal : ℕ) × (info.event ≡ trapped (event_trap event_stopped signal))

-- Every stored event is a stop.
abbrev pub HoldsStops : List (ℕ × ChildState) → Type 0
HoldsStops events = (pid : ℕ) (info : ChildState) → Maps.find pid events ≡ some info → IsStop info

module _ {X : Type 0} (p : List (ℕ × ChildState) → Option ℕ → X) where
  pub log_api_error-Keeps : (e : Exception) → Keeps p (log_api_error e)
  log_api_error-Keeps e w = ground arith

  -- Two handlers that agree on what the event leaves behind.
  handle_known-same :
      (env : Env) (h k : ChildState → M World Decision) (i : ℕ) (info : ChildState) (w : World)
      → Keeps p (process_event env i info)
      → ((u : World) → view p u ≡ view p w → check_unknown_events h u ≡ check_unknown_events k u)
      → handle_known env h i info w ≡ handle_known env k i info w
  unfolding handle_known
  handle_known-same env h k i info w keeps same =
      first (catch (process_event env i info) log_api_error w)
        (catch-Keeps p (process_event env i info) log_api_error keeps log_api_error-Keeps w)
    where
      rest : (ChildState → M World Decision) → M World Decision
      rest handle = check_unknown_events handle >> pure done

      second :
          (r : Outcome World (Unit {0}))
          → view p (final r) ≡ view p w
          → elim r as (λ x. Outcome World Decision) [
            | returns a t ↦ rest h t
            | throws e t ↦ throws e t
          ]
            ≡ elim r as (λ x. Outcome World Decision) [
              | returns a t ↦ rest k t
              | throws e t ↦ throws e t
            ]
      second (returns a t) e =
          ap
            (λ r. elim r as (λ x. Outcome World Decision) [
              | returns b u ↦ pure done u
              | throws x u ↦ throws x u
            ])
            (same t e)
      second (throws x t) e = refl

      first :
          (r : Outcome World (Unit {0}))
          → view p (final r) ≡ view p w
          → elim r as (λ x. Outcome World Decision) [
            | returns a t ↦ (check_cleanup_tracee env info.pid i >> rest h) t
            | throws e t ↦ throws e t
          ]
            ≡ elim r as (λ x. Outcome World Decision) [
              | returns a t ↦ (check_cleanup_tracee env info.pid i >> rest k) t
              | throws e t ↦ throws e t
            ]
      first (returns a t) e =
          second (check_cleanup_tracee env info.pid i t)
            (check_cleanup_tracee-Keeps p env info.pid i t ∙ e)
      first (throws x t) e = refl

-- Where no new process is noted, nothing is delivered.
nothing_noted :
    (h : ChildState → M World Decision) (w : World)
    → w.newly_attached ≡ none
    → check_unknown_events h w ≡ returns tt w
unfolding check_unknown_events
nothing_noted h w e = grind (arith)

abbrev noted : List (ℕ × ChildState) → Option ℕ → Option ℕ
noted events newly = newly

process_stop-noted :
    (env : Env) (i : ℕ) (info : ChildState) → IsStop info → Keeps noted (process_event env i info)
process_stop-noted env i info (signal, e) =
    subst (λ event. Keeps noted (process_event env i (record { pid = info.pid; event = event })))
      (sym e) (process_stop-Keeps noted env i info.pid signal)

-- The handling of a stop delivers no stored event.
stop-same :
    (env : Env) (n k : ℕ) (info : ChildState) (w : World)
    → IsStop info
    → w.newly_attached ≡ none
    → handle_event env (suc n) info w ≡ handle_event env (suc k) info w
unfolding handle_event
stop-same env n k info w stop e = found (Maps.find info.pid w.tracees)
  where
    found :
        (o : Option ℕ)
        → handle_found env (handle_event env n) o info w
          ≡ handle_found env (handle_event env k) o info w
    found none = refl
    found (some i) =
        handle_known-same noted env (handle_event env n) (handle_event env k) i info w
          (process_stop-noted env i info stop)
          (λ u v.
            nothing_noted (handle_event env n) u (v ∙ e)
            ∙ sym (nothing_noted (handle_event env k) u (v ∙ e)))

-- What a delivery comes to does not depend on the fuel of the handler, when only stops are stored.
delivery-same :
    (env : Env) (n k : ℕ) (u : World)
    → HoldsStops u.unknown_events
    → check_unknown_events (handle_event env (suc n)) u
      ≡ check_unknown_events (handle_event env (suc k)) u
unfolding check_unknown_events
delivery-same env n k u stops = noted_pid u.newly_attached
  where
    note : World
    note = record u { newly_attached = none }

    event :
        (pid : ℕ) (o : Option ChildState)
        → Maps.find pid u.unknown_events ≡ o
        → deliver_stored (handle_event env (suc n)) pid o note
          ≡ deliver_stored (handle_event env (suc k)) pid o note
    event pid none e = refl
    event pid (some info) e =
        ap
          (λ r. elim r as (λ x. Outcome World (Unit {0})) [
            | returns d t ↦
                returns tt (record t { unknown_events = Maps.erase pid t.unknown_events })
            | throws x t ↦ throws x t
          ])
          (stop-same env n k info note (stops pid info e) refl)

    noted_pid :
        (o : Option ℕ)
        → check_pid (handle_event env (suc n)) o u ≡ check_pid (handle_event env (suc k)) o u
    noted_pid none = refl
    noted_pid (some pid) = event pid (Maps.find pid u.unknown_events) refl

-- When only stops are stored, an event has at most one more event within it: fuel for more does not
-- change what comes of it.
pub handle_event-enough :
    (env : Env) (n : ℕ) (info : ChildState) (w : World)
    → HoldsStops w.unknown_events
    → handle_event env (suc (suc n)) info w ≡ handle_event env 2 info w
unfolding handle_event
handle_event-enough env n info w stops = found (Maps.find info.pid w.tracees)
  where
    found :
        (o : Option ℕ)
        → handle_found env (handle_event env (suc n)) o info w
          ≡ handle_found env (handle_event env 1) o info w
    found none = refl
    found (some i) =
        handle_known-same stored env (handle_event env (suc n)) (handle_event env 1) i info w
          (process_event-KeepsStored env i info)
          (λ u v. delivery-same env n 0 u (subst HoldsStops (sym v) stops))
