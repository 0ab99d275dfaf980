-- ===== src/Engine/Loop.antt =====
-- The main loop: handleEvent, checkUnknownTraceeEvent, checkUnknownEvents, handleNoChildren and trace
-- of src/Engine.cxx.
use clues.Common.{
  ℕ, zero, suc, Bool, true, false, not, Option, none, some, List, [], ◌∷◌, ◌==◌, if◌then◌else◌,
  is_some,
}
use clues.Common.Maps
use clues.Outcome.{
  M, returns, throws, Exception, invalid_iterator, api_error, ◌>>=◌, ◌>>◌, pure, modify, skip, when,
  throw, catch, get, errno_no_child, Response, ok, fails,
}
use clues.Tracee.State.{
  Env, event_stopped, exec, TrapSignal, event_trap, ChildEvent, trapped, ChildState,
}
use clues.Tracee.Detach.{detach}
use clues.Engine.World.{World, on}
use clues.Engine.Registry.{check_cleanup_tracee, try_update_tracee_pid}
use clues.Engine.Process.{process_event}

-- Engine::Decision.
pub data Decision : Type 0 where
  retry drop store done : Decision

-- A request about a process that is no tracee yet.
abbrev answer_world : {A : Type 0} → Response A → M World A
answer_world (ok a) w = returns a (record w { clock = suc w.clock })
answer_world (fails e) w = throws (api_error e) (record w { clock = suc w.clock })

abbrev retry_or_drop : Bool → Decision
retry_or_drop true = retry
retry_or_drop false = drop

-- An exec of a thread whose main thread is not traced.
abbrev pub follow_exec : Env → ℕ → M World Decision
follow_exec env pid = do
  w ← get
  former ← answer_world (env.get_pid_event_msg w.clock (some pid))
  found ← try_update_tracee_pid former pid
  pure (retry_or_drop found)

abbrev pub unknown_trap : Env → ℕ → TrapSignal → M World Decision
unknown_trap env pid (event_trap exec signal) = follow_exec env pid
unknown_trap env pid (event_trap event_stopped signal) = pure store
unknown_trap env pid _ = pure drop

abbrev pub unknown_event : Env → ℕ → ChildEvent → M World Decision
unknown_event env pid (trapped t) = unknown_trap env pid t
unknown_event env pid _ = pure drop

-- `checkUnknownTraceeEvent`.
unfoldable pub check_unknown_tracee_event : Env → ChildState → M World Decision
check_unknown_tracee_event env info = unknown_event env info.pid info.event

-- An ApiError of `processEvent` is only logged.
abbrev pub log_api_error : Exception → M World (Unit {0})
log_api_error (api_error e) w = returns tt w
log_api_error e w = throws e w

-- `checkUnknownEvents`, given the handler of events. The entry is found by its key, before and after.
abbrev pub deliver_stored :
    (ChildState → M World Decision) → ℕ → Option ChildState → M World (Unit {0})
deliver_stored handle pid none w = returns tt w
deliver_stored handle pid (some info) w =
    (do
      decision ← handle info
      modify (λ v. record v { unknown_events = Maps.erase pid v.unknown_events }))
      w

abbrev pub check_pid : (ChildState → M World Decision) → Option ℕ → M World (Unit {0})
check_pid handle none w = returns tt w
check_pid handle (some pid) w =
    deliver_stored handle pid (Maps.find pid w.unknown_events) (record w { newly_attached = none })

unfoldable pub check_unknown_events : (ChildState → M World Decision) → M World (Unit {0})
check_unknown_events handle w = check_pid handle w.newly_attached w

-- The part of `handleEvent` for a tracee that is known.
unfoldable pub handle_known :
    Env → (ChildState → M World Decision) → ℕ → ChildState → M World Decision
handle_known env handle i info = do
  catch (process_event env i info) log_api_error
  check_cleanup_tracee env info.pid i
  check_unknown_events handle
  pure done

abbrev pub handle_found :
    Env → (ChildState → M World Decision) → Option ℕ → ChildState → M World Decision
handle_found env handle none info = check_unknown_tracee_event env info
handle_found env handle (some i) info = handle_known env handle i info

abbrev pub handle_with : Env → (ChildState → M World Decision) → ChildState → M World Decision
handle_with env handle info w = handle_found env handle (Maps.find info.pid w.tracees) info w

-- `handleEvent`, on fuel for the delivery of a stored event in it. Without fuel the event is dropped.
unfoldable pub handle_event : Env → ℕ → ChildState → M World Decision
handle_event env zero info = pure drop
handle_event env (suc fuel) info = handle_with env (handle_event env fuel) info

-- `m_unknown_events.insert`: the first stored event of a process stays.
abbrev pub decide : ChildState → Decision → M World Bool
decide info retry w = returns true w
decide info store w =
    returns false (record w { unknown_events = Maps.insert info.pid info w.unknown_events })
decide info drop w = returns false w
decide info done w = returns false w

-- The inner loop of `trace`, on fuel for the retries.
unfoldable pub handle_until_done : Env → ℕ → ℕ → ChildState → M World (Unit {0})
handle_until_done env zero fuel info = skip
handle_until_done env (suc retries) fuel info = do
  decision ← handle_event env fuel info
  again ← decide info decision
  when again (handle_until_done env retries fuel info)

-- The loop of `handleNoChildren` over the entries that are left. An entry that is erased leaves an
-- iterator that cannot be moved on.
unfoldable pub clean_up_all : Env → List (ℕ × ℕ) → M World (Unit {0})
unfolding on
clean_up_all env [] = skip
clean_up_all env ((pid, i) ∷ rest) = do
  gone ← on i (detach env)
  check_cleanup_tracee env pid i
  w ← get
  when (not (is_some (Maps.find pid w.tracees))) (throw invalid_iterator)
  clean_up_all env rest

-- `handleNoChildren`.
unfoldable pub handle_no_children : Env → M World (Unit {0})
handle_no_children env w = clean_up_all env w.tracees w

-- How `trace` ends: with no tracee left, with no child left to wait for, or still waiting.
pub data TraceEnd : Type 0 where
  no_tracees no_children waiting : TraceEnd

abbrev is_empty : List (ℕ × ℕ) → Bool
is_empty [] = true
is_empty (e ∷ m) = false

abbrev fail_wait : Env → ℕ → M World TraceEnd
fail_wait env e w =
    if e == errno_no_child
    then (handle_no_children env >>= λ _. pure no_children) w
    else throws (api_error e) w

-- `trace`, over the answers of `wait()`, which are an event or an errno. One retry is enough, and so
-- is one stored event within an event.
unfoldable pub trace : Env → List (Response ChildState) → M World TraceEnd
unfolding handle_until_done handle_no_children
trace env [] w = returns (if is_empty w.tracees then no_tracees else waiting) w
trace env (fails e ∷ answers) w =
    if is_empty w.tracees then returns no_tracees w else fail_wait env e w
trace env (ok info ∷ answers) w =
    let rest = (handle_until_done env 2 2 info >>= λ _. trace env answers) in
    if is_empty w.tracees then returns no_tracees w else rest w
