-- ===== src/Engine/Deciding.antt =====
-- Which events are stored: checkUnknownTraceeEvent and handleEvent of src/Engine.cxx.
use clues.Common.{arith, ℕ, zero, suc, ◌≡◌, refl, Option, none, some, ◌≢◌}
use clues.Common.Maps
use clues.Outcome.{M, Outcome, returns, throws}
use clues.Tracee.State.{
  Env, ChildState, trapped, event_trap, event_stopped, ChildEvent, TrapSignal, sys_trap, delivery,
  exec, exit, clone, vfork, fork, vfork_done, seccomp, exited, killed, dumped, stopped, continued,
}
use clues.Engine.World.{World}
use clues.Engine.Registry.{try_update_tracee_pid}
use clues.Engine.Loop.{
  Decision, store, check_unknown_tracee_event, handle_known, handle_event, handle_found,
  unknown_event, unknown_trap, follow_exec,
}

-- `store` is decided only about stops.
abbrev NotStored : Outcome World Decision → Type 0
NotStored (returns d t) = d ≢ store
NotStored (throws e t) = Unit

abbrev pub Decided : ChildEvent → Outcome World Decision → Type 0
Decided event (returns d t) =
    d ≡ store → (signal : ℕ) × (event ≡ trapped (event_trap event_stopped signal))
Decided event (throws e t) = Unit

NotStored-Decided :
    (event : ChildEvent) (r : Outcome World Decision) → NotStored r → Decided event r
NotStored-Decided event (returns d t) h = λ e. absurd (h e)
NotStored-Decided event (throws x t) h = tt

follow_exec-NotStored : (env : Env) (pid : ℕ) (w : World) → NotStored (follow_exec env pid w)
unfolding try_update_tracee_pid
follow_exec-NotStored env pid w = grind (arith)

unknown_trap-Decided :
    (env : Env) (pid : ℕ) (t : TrapSignal) (w : World)
    → Decided (trapped t) (unknown_trap env pid t w)
unknown_trap-Decided env pid sys_trap w = λ e. cc e
unknown_trap-Decided env pid (delivery n) w = λ e. cc e
unknown_trap-Decided env pid (event_trap event_stopped n) w = λ e. (n, refl)
unknown_trap-Decided env pid (event_trap exec n) w =
    NotStored-Decided (trapped (event_trap exec n)) (follow_exec env pid w)
      (follow_exec-NotStored env pid w)
unknown_trap-Decided env pid (event_trap exit n) w = λ e. cc e
unknown_trap-Decided env pid (event_trap clone n) w = λ e. cc e
unknown_trap-Decided env pid (event_trap vfork n) w = λ e. cc e
unknown_trap-Decided env pid (event_trap fork n) w = λ e. cc e
unknown_trap-Decided env pid (event_trap vfork_done n) w = λ e. cc e
unknown_trap-Decided env pid (event_trap seccomp n) w = λ e. cc e

unknown_event-Decided :
    (env : Env) (pid : ℕ) (event : ChildEvent) (w : World)
    → Decided event (unknown_event env pid event w)
unknown_event-Decided env pid (trapped t) w = unknown_trap-Decided env pid t w
unknown_event-Decided env pid (exited n) w = λ e. cc e
unknown_event-Decided env pid (killed n) w = λ e. cc e
unknown_event-Decided env pid (dumped n) w = λ e. cc e
unknown_event-Decided env pid (stopped n) w = λ e. cc e
unknown_event-Decided env pid (continued n) w = λ e. cc e

handle_known-NotStored :
    (env : Env) (h : ChildState → M World Decision) (i : ℕ) (info : ChildState) (w : World)
    → NotStored (handle_known env h i info w)
unfolding handle_known
handle_known-NotStored env h i info w = grind (arith)

pub handle_event-Decided :
    (env : Env) (fuel : ℕ) (info : ChildState) (w : World)
    → Decided info.event (handle_event env fuel info w)
unfolding handle_event check_unknown_tracee_event
handle_event-Decided env zero info w = λ e. cc e
handle_event-Decided env (suc fuel) info w = found (Maps.find info.pid w.tracees)
  where
    found : (o : Option ℕ) → Decided info.event (handle_found env (handle_event env fuel) o info w)
    found none = unknown_event-Decided env info.pid info.event w
    found (some i) =
        NotStored-Decided info.event (handle_known env (handle_event env fuel) i info w)
          (handle_known-NotStored env (handle_event env fuel) i info w)
