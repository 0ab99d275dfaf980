-- ===== src/Examples/Table.antt =====
-- Concrete events at the table of tracees.
use clues.Tracee.State.{restarted, Env, ChildState, trapped, event_trap, exec, dead, running}
use clues.Common.{◌++◌, ℕ, ◌≡◌, ◌≢◌, refl, true, none, some, [], ◌∷◌, arith}
use clues.Common.Maps
use clues.Outcome.{returns, throws, fails, final, invalid_iterator, errno_search, ◌>>◌}
use clues.Abi.{exit_value}
use clues.Engine.World.{World}
use clues.Engine.Registry.{try_update_tracee_pid}
use clues.Engine.Loop.{handle_event, handle_until_done, handle_no_children}
use clues.Engine.Lookup.{try_update_tracee_pid_lem, handle_until_done-enough}
use clues.Engine.Storage.{stop_of}
use clues.Engine.Cleanup.{handle_no_children-invalid}
use clues.Engine.Nesting.{handle_event-enough}
use clues.Engine.Backlog.{IsBacklog, handle_until_done-IsBacklog}
use clues.Engine.Process.{process_event, deliver, restart_tracee}
use clues.Engine.Restarts.{EndsAt, IsLetRun, process_event-LetRun, signal_stop_lem}
use clues.Examples.Fixtures.{kernel, tracee, world, local}

abbrev gone_kernel : Env
gone_kernel = kernel (exit_value 0) (fails errno_search)

abbrev dead_world : World
dead_world = world (record tracee { state = dead })

try_update_tracee_pid_lem_example :
    let r = final (try_update_tracee_pid 100 90 (world tracee)) in
    (try_update_tracee_pid 100 90 (world tracee) ≡ returns true r)
    × (Maps.find 90 r.tracees ≡ some 1)
    × (Maps.find 100 r.tracees ≡ none)
    × ((pid : ℕ) → pid ≢ 100 → pid ≢ 90 → Maps.find pid r.tracees ≡ Maps.find pid ((100, 1) ∷ []))
    × Maps.IsSorted r.tracees
unfolding Maps.find
try_update_tracee_pid_lem_example =
    try_update_tracee_pid_lem 100 90 1 (world tracee) tt (omega arith) refl refl

-- An exec of thread 100, which has become process 90.
abbrev exec_event : ChildState
exec_event = record { pid = 90; event = trapped (event_trap exec 5) }

handle_until_done-enough_example :
    handle_until_done gone_kernel 7 2 exec_event (world tracee)
    ≡ handle_until_done gone_kernel 2 2 exec_event (world tracee)
handle_until_done-enough_example =
    handle_until_done-enough gone_kernel 5 1 exec_event (world tracee) tt

-- Process 77 has been attached, and its stop is stored.
abbrev waiting_world : World
waiting_world = record (world tracee) {
  unknown_events = (77, stop_of 77 5) ∷ [];
  newly_attached = some 77;
}

handle_no_children-invalid_example :
    handle_no_children gone_kernel dead_world
    ≡ throws invalid_iterator (final (handle_no_children gone_kernel dead_world))
handle_no_children-invalid_example =
    handle_no_children-invalid gone_kernel 100 1 [] dead_world refl tt refl refl refl

no_events-IsBacklog : IsBacklog []
unfolding Maps.find
no_events-IsBacklog = record { sorted = tt; stops = λ pid info e. cc e }

handle_event-enough_example :
    handle_event gone_kernel 6 (stop_of 100 5) (world tracee)
    ≡ handle_event gone_kernel 2 (stop_of 100 5) (world tracee)
handle_event-enough_example =
    handle_event-enough gone_kernel 4 (stop_of 100 5) (world tracee) no_events-IsBacklog.stops

handle_until_done-IsBacklog_example :
    IsBacklog
      (final (handle_until_done gone_kernel 2 2 (stop_of 77 5) (world tracee))).unknown_events
handle_until_done-IsBacklog_example =
    handle_until_done-IsBacklog gone_kernel 2 2 (stop_of 77 5) (world tracee) no_events-IsBacklog

process_event-LetRun_example :
    EndsAt (IsLetRun 1) (process_event gone_kernel 1 (stop_of 100 5) (world tracee))
process_event-LetRun_example = process_event-LetRun gone_kernel 1 (stop_of 100 5) (world tracee)

signal_stop_lem_example :
    let r = final ((deliver gone_kernel 10 >> restart_tracee gone_kernel) (local tracee)) in
    ((deliver gone_kernel 10 >> restart_tracee gone_kernel) (local tracee) ≡ returns tt r)
    × (r.tracee.state ≡ running)
    × (r.clock ≡ 2)
    × (r.log
        ≡ (final (deliver gone_kernel 10 (local tracee))).log
          ++ restarted 1 (tracee.restart_mode) (some 10) ∷ [])
signal_stop_lem_example =
    signal_stop_lem gone_kernel 10 18 (local tracee) refl (λ c p. refl) (λ c p. refl)
