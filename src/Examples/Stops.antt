-- ===== src/Examples/Stops.antt =====
-- Concrete stops of a tracee.
use clues.Tracee.Release.{split_args-cmdline_of, detach-Released, Released}
use clues.Tracee.Detach.{split_args, detach}
use clues.Common.{[], ◌∷◌, arith, ℕ, ◌≡◌, refl, Bool, true, none, some, if◌then◌else◌}
use clues.Outcome.{returns, throws, ok, final, runtime_error, ◌>>◌}
use clues.Abi.{
  entry, exit_value, arch_x86_64, SystemCallInfo, x86_64, update_sys_nr, new_info, verify_arch,
}
use clues.Tracee.State.{
  Local, Tracee, Env, syscall_enter_stop, event_stop, group_stop, running, listen, syscall_exit,
  no_status, stopped_by_signal, restarted, exit_status, change_state, syscall, no_flags,
}
use clues.Tracee.SystemCalls.{
  handle_system_call, handle_system_call_entry, handle_system_call_exit, kernel_error,
}
use clues.Tracee.Events.{handle_exit_event, sig_trap}
use clues.Tracee.Alternation.{syscall_entered-flips, state_mismatch}
use clues.Tracee.Entries.{EntersWell, abi_changed_at}
use clues.Tracee.Resumption.{
  handle_system_call_entry_lem, handle_system_call_exit_lem, restart_resumes_interrupted, Reported,
  exited_call,
}
use clues.Tracee.Safety.{HasCall, handle_system_call-HasCall, handle_exit_event-total}
use clues.Tracee.Stops.{group_stop_then_restart, resumption_unreported, stop_and_restart}
use clues.Calls.{set_exit_info, run_exit, set_result, update_from, update_deferred, needs_update}
use clues.Calls.Entries.{set_entry_info_lem}
use clues.Examples.Values.{quiet_hooks}
use clues.Examples.Fixtures.{kernel, tracee, local}

abbrev enters : Env
enters = kernel (entry 0 (3 ∷ 4 ∷ [])) (ok tt)

abbrev exits : Env
exits = kernel (exit_value 7) (ok tt)

-- The tracee in its system call.
abbrev in_call : Tracee
in_call = record tracee {
  prev_state = syscall_enter_stop;
  flags = record no_flags { syscall_entered = true };
  current_syscall = some 0;
}

abbrev in_call-HasCall : HasCall in_call
in_call-HasCall = record { in_call = λ e. refl; at_entry = λ e. refl }

syscall_entered-flips_example :
    (final (handle_system_call enters (local tracee))).tracee.flags.syscall_entered ≡ true
unfolding update_sys_nr new_info
syscall_entered-flips_example =
    syscall_entered-flips enters (entry 0 (3 ∷ 4 ∷ [])) arch_x86_64 (local tracee) refl refl

state_mismatch_example :
    let r = handle_system_call exits (local tracee) in
    (r ≡ throws runtime_error (final r))
    × ((final r).tracee.flags ≡ no_flags)
    × ((final r).log ≡ [])
state_mismatch_example = state_mismatch exits (exit_value 7) arch_x86_64 (local tracee) refl refl

abbrev read_info : SystemCallInfo
read_info = record {
  op = entry 0 (3 ∷ 4 ∷ []);
  arch = arch_x86_64;
  generic = 1;
  native = some (x86_64, 0);
  abi = x86_64;
}

enters_well : EntersWell enters read_info
enters_well = λ c. (set_entry_info_lem quiet_hooks read_info c (λ k. refl)).0

handle_system_call_entry_lem_example :
    (c : ℕ) × (b : Bool) × (d : Bool) × Reported enters read_info (local tracee) c b d
unfolding verify_arch
handle_system_call_entry_lem_example =
    handle_system_call_entry_lem enters read_info (local tracee) refl enters_well

handle_system_call_exit_lem_example :
    let u = final (handle_system_call_exit exits (exit_value 7) (local in_call)) in
    let c = exited_call exits (exit_value 7) 0 (local in_call) in
    (handle_system_call_exit exits (exit_value 7) (local in_call) ≡ returns tt u)
    × (u.tracee.current_syscall ≡ none)
    × (u.tracee.interrupted_syscall ≡ (if kernel_error c.error then some 0 else none))
    × (u.log ≡ syscall_exit 1 c.nr (record no_status { interrupted = kernel_error c.error }) ∷ [])
    × (u.tracee.id ≡ 1)
unfolding set_exit_info run_exit set_result update_from update_deferred needs_update
handle_system_call_exit_lem_example =
    handle_system_call_exit_lem exits (exit_value 7) 0 (local in_call) refl refl refl

-- A read that was interrupted, before its restart.
abbrev was_interrupted : Tracee
was_interrupted = record tracee { interrupted_syscall = some 0 }

abbrev restart_info : SystemCallInfo
restart_info = record read_info { generic = 310 }

restarts_well : EntersWell enters restart_info
restarts_well = λ c. (set_entry_info_lem quiet_hooks restart_info c (λ k. refl)).0

restart_resumes_interrupted_example :
    Reported enters restart_info
      (local was_interrupted)
      0
      (abi_changed_at enters restart_info (local was_interrupted))
      true
    × ((final (
          handle_system_call_entry enters restart_info
            (local was_interrupted))).tracee.interrupted_syscall
        ≡ none)
unfolding verify_arch
restart_resumes_interrupted_example =
    restart_resumes_interrupted enters restart_info 0 (local was_interrupted) refl refl refl
      restarts_well

handle_system_call-HasCall_example :
    HasCall (final (handle_system_call exits (local in_call))).tracee
handle_system_call-HasCall_example =
    handle_system_call-HasCall exits (local in_call) in_call-HasCall

handle_exit_event-total_example :
    let r = final ((change_state exits event_stop >> handle_exit_event exits) (local in_call)) in
    ((change_state exits event_stop >> handle_exit_event exits) (local in_call) ≡ returns tt r)
    × (r.tracee.flags.wait_for_exited ≡ true)
handle_exit_event-total_example =
    handle_exit_event-total exits (exit_status 0) (local in_call) in_call-HasCall refl

group_stop_then_restart_example :
    let r = final (stop_and_restart enters 20 (local tracee)) in
    (r.tracee.state ≡ group_stop) × (r.log ≡ stopped_by_signal 1 ∷ restarted 1 listen none ∷ [])
group_stop_then_restart_example = group_stop_then_restart enters 20 (local tracee) refl refl

abbrev in_group_stop : Tracee
in_group_stop = record tracee { state = group_stop; restart_mode = listen }

resumption_unreported_example :
    let r = final (stop_and_restart enters sig_trap (local in_group_stop)) in
    (stop_and_restart enters sig_trap (local in_group_stop) ≡ returns tt r)
    × (r.tracee.state ≡ running)
    × (r.tracee.restart_mode ≡ syscall)
    × (r.log ≡ restarted 1 syscall none ∷ [])
resumption_unreported_example = resumption_unreported enters (local in_group_stop) refl refl

detach-Released_example : Released (local in_group_stop) (detach enters (local in_group_stop))
detach-Released_example = detach-Released enters (local in_group_stop)

-- The tracee after the entry into a system call.
abbrev after_entry : Local
after_entry = final (handle_system_call enters (local tracee))

-- The arguments "ls" and "".
split_args-cmdline_of_example : split_args [] (108 ∷ 115 ∷ 0 ∷ 0 ∷ []) ≡ (108 ∷ 115 ∷ []) ∷ [] ∷ []
split_args-cmdline_of_example =
    split_args-cmdline_of ((108 ∷ 115 ∷ []) ∷ [] ∷ [])
      (((λ e. omega arith), ((λ e. omega arith), tt)), (tt, tt))
