-- ===== src/Engine/Storage.antt =====
-- Events that arrive before their process is known: handleEvent, checkUnknownEvents and trace of
-- src/Engine.cxx.
use clues.Common.{
  ℕ, suc, ◌≡◌, ◌≢◌, refl, Option, none, some, arith, Option-cases, inl, inr, ap, ◌∙◌, ==_refl,
}
use clues.Common.Maps
use clues.Outcome.{M, returns, final}
use clues.Tracee.State.{Env, ChildState, trapped, event_trap, event_stopped}
use clues.Engine.World.{World}
use clues.Engine.Loop.{
  Decision, handle_event, check_unknown_tracee_event, handle_until_done, check_unknown_events,
}

-- The event that a process is to be given: the one that is stored already, or else the new one.
abbrev pub first_event : Option ChildState → ChildState → ChildState
first_event none new = new
first_event (some old) new = old

abbrev pub stop_of : ℕ → ℕ → ChildState
stop_of pid signal = record { pid = pid; event = trapped (event_trap event_stopped signal) }

stored_at :
    (env : Env) (retries fuel signal pid : ℕ) (w : World)
    → Maps.find pid w.tracees ≡ none
    → handle_until_done env (suc retries) (suc fuel) (stop_of pid signal) w
      ≡ returns tt
          (record w { unknown_events = Maps.insert pid (stop_of pid signal) w.unknown_events })
unfolding handle_until_done handle_event check_unknown_tracee_event
stored_at env retries fuel signal pid w f = grind (arith)

-- A stop of a process that is not known is stored, unless one is stored for it already, which then
-- stays. Nothing else changes: the consumer sees nothing, and no event of another process is lost.
pub stop_event-stored :
    (env : Env) (retries fuel signal pid : ℕ) (w : World)
    → Maps.IsSorted w.unknown_events
    → Maps.find pid w.tracees ≡ none
    → let info = stop_of pid signal in
      let r = final (handle_until_done env (suc retries) (suc fuel) info w) in
      (handle_until_done env (suc retries) (suc fuel) info w
        ≡ returns tt (record w { unknown_events = r.unknown_events }))
      × (Maps.find pid r.unknown_events ≡ some (first_event (Maps.find pid w.unknown_events) info))
      × ((p : ℕ) → p ≢ pid → Maps.find p r.unknown_events ≡ Maps.find p w.unknown_events)
stop_event-stored env retries fuel signal pid w s f =
    rw (stored_at env retries fuel signal pid w f)
      (refl, kept, λ p n. Maps.find-insert_ne pid p info w.unknown_events n)
  where
    info : ChildState
    info = stop_of pid signal

    kept :
        Maps.find pid (Maps.insert pid info w.unknown_events)
        ≡ some (first_event (Maps.find pid w.unknown_events) info)
    kept = elim (Option-cases (Maps.find pid w.unknown_events)) [
      | inl e ↦ Maps.find-insert_self pid info w.unknown_events s e ∙ rw e refl
      | inr (old, e) ↦
          ap (Maps.find pid) (Maps.insert_present pid info old w.unknown_events s e) ∙ e ∙ rw e refl
    ]

delivered :
    (handle : ChildState → M World Decision) (pid : ℕ) (info : ChildState) (d : Decision)
    (w t : World)
    → w.newly_attached ≡ some pid
    → Maps.find pid w.unknown_events ≡ some info
    → handle info (record w { newly_attached = none }) ≡ returns d t
    → check_unknown_events handle w
      ≡ returns tt (record t { unknown_events = Maps.erase pid t.unknown_events })
unfolding check_unknown_events
delivered handle pid info d w t n f h = grind (arith)

-- Once the process is attached, its stored event is handled, just once: it is taken out of the store,
-- and the note of the new process is gone before the event is handled.
pub stored_event-delivered :
    (handle : ChildState → M World Decision) (pid : ℕ) (info : ChildState) (d : Decision)
    (w t : World)
    → w.newly_attached ≡ some pid
    → Maps.find pid w.unknown_events ≡ some info
    → handle info (record w { newly_attached = none }) ≡ returns d t
    → Maps.IsSorted t.unknown_events
    → let r = final (check_unknown_events handle w) in
      (check_unknown_events handle w ≡ returns tt (record t { unknown_events = r.unknown_events }))
      × (Maps.find pid r.unknown_events ≡ none)
      × ((p : ℕ) → p ≢ pid → Maps.find p r.unknown_events ≡ Maps.find p t.unknown_events)
stored_event-delivered handle pid info d w t n f h s = rw (delivered handle pid info d w t n f h) (
  refl,
  Maps.find-erase pid pid t.unknown_events s ∙ rw (==_refl pid) refl,
  λ p q. Maps.find-erase pid p t.unknown_events s ∙ ground arith,
)
