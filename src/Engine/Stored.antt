-- ===== src/Engine/Stored.antt =====
-- The handling of an event by a tracee leaves the stored events alone: src/Tracee.cxx and
-- src/Engine.cxx.
use clues.Common.{arith, ℕ, refl, Bool, true, false, Option, none, some, List}
use clues.Outcome.{M, when}
use clues.Tracee.State.{
  Env, ChildState, ChildEvent, PtraceEvent, TrapSignal, exit, exec, clone, vfork, fork, vfork_done,
  seccomp, event_stopped, sys_trap, event_trap, delivery, exited, killed, dumped, trapped, stopped,
  continued, State, change_state,
}
use clues.Tracee.Detach.{do_detach}
use clues.Tracee.SystemCalls.{handle_system_call}
use clues.Tracee.Events.{handle_exit_event}
use clues.Engine.World.{World, on, create, unshare_process_data}
use clues.Engine.Registry.{
  attach_child, handle_auto_attach, handle_substitution, check_cleanup_tracee,
}
use clues.Engine.Process.{
  sync_state, handle_exec_event, handle_new_child_event, handle_ptrace_event, handle_trap,
  process_event, substitute, detach_or_trap, other_event, dispatch, deliver, vanish, restart_tracee,
}
use clues.Engine.Inbox.{
  Keeps, bind-Keeps, when-Keeps, on-Keeps, handle_stop_event-Keeps, check_cleanup_tracee-Keeps,
}

abbrev pub stored : List (ℕ × ChildState) → Option ℕ → List (ℕ × ChildState)
stored events newly = events

abbrev pub KeepsStored : {A : Type 0} → M World A → Type 0
KeepsStored m = Keeps stored m

check_cleanup_tracee-KeepsStored :
    (env : Env) (pid i : ℕ) → KeepsStored (check_cleanup_tracee env pid i)
check_cleanup_tracee-KeepsStored env pid i = check_cleanup_tracee-Keeps stored env pid i

attach_child-KeepsStored :
    (env : Env) (parent pid : ℕ) (event : PtraceEvent) (call : ℕ)
    → KeepsStored (attach_child env parent pid event call)
unfolding attach_child create unshare_process_data
attach_child-KeepsStored env parent pid event call w =
    grind (arith, on-Keeps stored, check_cleanup_tracee-KeepsStored)

handle_auto_attach-KeepsStored :
    (env : Env) (parent pid : ℕ) (event : PtraceEvent) (call : ℕ)
    → KeepsStored (handle_auto_attach env parent pid event call)
unfolding handle_auto_attach
handle_auto_attach-KeepsStored env parent pid event_stopped call w =
    grind (arith, attach_child-KeepsStored)
handle_auto_attach-KeepsStored env parent pid exit call w = grind (arith, attach_child-KeepsStored)
handle_auto_attach-KeepsStored env parent pid exec call w = grind (arith, attach_child-KeepsStored)
handle_auto_attach-KeepsStored env parent pid clone call w = grind (arith, attach_child-KeepsStored)
handle_auto_attach-KeepsStored env parent pid vfork call w = grind (arith, attach_child-KeepsStored)
handle_auto_attach-KeepsStored env parent pid fork call w = grind (arith, attach_child-KeepsStored)
handle_auto_attach-KeepsStored env parent pid vfork_done call w = refl
handle_auto_attach-KeepsStored env parent pid seccomp call w =
    grind (arith, attach_child-KeepsStored)

handle_new_child_event-KeepsStored :
    (env : Env) (i : ℕ) (event : PtraceEvent) → KeepsStored (handle_new_child_event env i event)
unfolding handle_new_child_event
handle_new_child_event-KeepsStored env i event w =
    grind (arith, on-Keeps stored, handle_auto_attach-KeepsStored)

sync_state-KeepsStored : (env : Env) (i other : ℕ) → KeepsStored (sync_state env i other)
unfolding sync_state
sync_state-KeepsStored env i other w = grind (arith, on-Keeps stored)

handle_substitution-KeepsStored : (env : Env) (pid : ℕ) → KeepsStored (handle_substitution env pid)
unfolding handle_substitution
handle_substitution-KeepsStored env pid w = grind (arith, on-Keeps stored)

substitute-KeepsStored :
    (env : Env) (i pid : ℕ) (former : Option ℕ) → KeepsStored (substitute env i pid former)
substitute-KeepsStored env i pid none w = refl
substitute-KeepsStored env i pid (some former) w =
    grind (arith, handle_substitution-KeepsStored, sync_state-KeepsStored)

handle_exec_event-KeepsStored : (env : Env) (i pid : ℕ) → KeepsStored (handle_exec_event env i pid)
unfolding handle_exec_event
handle_exec_event-KeepsStored env i pid w = grind (arith, on-Keeps stored, substitute-KeepsStored)

handle_ptrace_event-KeepsStored :
    (env : Env) (i pid : ℕ) (event : PtraceEvent) (signal : ℕ)
    → KeepsStored (handle_ptrace_event env i pid event signal)
unfolding handle_ptrace_event
handle_ptrace_event-KeepsStored env i pid event_stopped signal w =
    handle_stop_event-Keeps stored env i signal w
handle_ptrace_event-KeepsStored env i pid exit signal w =
    on-Keeps stored i (handle_exit_event env) w
handle_ptrace_event-KeepsStored env i pid exec signal w = handle_exec_event-KeepsStored env i pid w
handle_ptrace_event-KeepsStored env i pid clone signal w =
    handle_new_child_event-KeepsStored env i clone w
handle_ptrace_event-KeepsStored env i pid vfork signal w =
    handle_new_child_event-KeepsStored env i vfork w
handle_ptrace_event-KeepsStored env i pid fork signal w =
    handle_new_child_event-KeepsStored env i fork w
handle_ptrace_event-KeepsStored env i pid vfork_done signal w =
    handle_new_child_event-KeepsStored env i vfork_done w
handle_ptrace_event-KeepsStored env i pid seccomp signal w = refl

handle_trap-KeepsStored :
    (env : Env) (i pid : ℕ) (t : TrapSignal) → KeepsStored (handle_trap env i pid t)
unfolding handle_trap
handle_trap-KeepsStored env i pid sys_trap w = on-Keeps stored i (handle_system_call env) w
handle_trap-KeepsStored env i pid (event_trap event signal) w =
    bind-Keeps stored (on i (change_state env State.event_stop))
      (λ u. handle_ptrace_event env i pid event signal)
      (on-Keeps stored i (change_state env State.event_stop))
      (λ u. handle_ptrace_event-KeepsStored env i pid event signal) w
handle_trap-KeepsStored env i pid (delivery signal) w = on-Keeps stored i (deliver env signal) w

trap-KeepsStored :
    (env : Env) (i pid : ℕ) (t : TrapSignal) (b : Bool) → KeepsStored (detach_or_trap env i pid t b)
trap-KeepsStored env i pid t true w = on-Keeps stored i (do_detach env) w
trap-KeepsStored env i pid t false w =
    bind-Keeps stored (handle_trap env i pid t) (λ u. on i (restart_tracee env))
      (handle_trap-KeepsStored env i pid t) (λ u. on-Keeps stored i (restart_tracee env)) w

other_event-KeepsStored :
    (env : Env) (i : ℕ) (event : ChildEvent) (signal : ℕ)
    → KeepsStored (other_event env i event signal)
other_event-KeepsStored env i event signal =
    bind-Keeps stored (when (env.signaled_event event) (on i (deliver env signal)))
      (λ u. on i (restart_tracee env))
      (when-Keeps stored (env.signaled_event event) (on i (deliver env signal))
        (on-Keeps stored i (deliver env signal)))
      (λ u. on-Keeps stored i (restart_tracee env))

dispatch-KeepsStored :
    (env : Env) (i : ℕ) (info : ChildState) (event : ChildEvent)
    → KeepsStored (dispatch env i info event)
dispatch-KeepsStored env i info (exited n) w = on-Keeps stored i (vanish env info) w
dispatch-KeepsStored env i info (killed n) w = on-Keeps stored i (vanish env info) w
dispatch-KeepsStored env i info (dumped n) w = on-Keeps stored i (vanish env info) w
dispatch-KeepsStored env i info (trapped t) w =
    trap-KeepsStored env i info.pid t ((w.objects i).flags.detach_at_next_stop) w
dispatch-KeepsStored env i info (stopped n) w = other_event-KeepsStored env i (stopped n) n w
dispatch-KeepsStored env i info (continued n) w = other_event-KeepsStored env i (continued n) n w

-- A tracee never touches the stored events, whatever event it is given.
pub process_event-KeepsStored :
    (env : Env) (i : ℕ) (info : ChildState) → KeepsStored (process_event env i info)
unfolding process_event
process_event-KeepsStored env i info w = dispatch-KeepsStored env i info info.event _
