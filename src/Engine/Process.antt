-- ===== src/Engine/Process.antt =====
-- One event of one tracee: processEvent, handleEvent, handleStopEvent, handleAttached, attachThreads,
-- handleExecEvent, handleNewChildEvent and syncState of src/Tracee.cxx.
use clues.Common.{
  String, ℕ, Bool, true, false, not, Option, none, some, List, [], ◌∷◌, ◌==◌, if◌then◌else◌,
}
use clues.Outcome.{M, returns, throws, null_dereference, ◌>>=◌, ◌>>◌, skip, when, catch, get}
use clues.Tracee.State.{
  running, dead, event_stop, Tracee, signal_delivery_stop, is_group_stop, is_gone, syscall,
  is_listen, Local, Env, answer, ask, update, emit, attached, resumed_by_signal, disappeared,
  new_execution_context, restarted, PtraceEvent, event_stopped, exit, exec, clone, vfork, fork,
  vfork_done, TrapSignal, sys_trap, event_trap, delivery, ChildEvent, exited, killed, dumped,
  trapped, stopped, continued, ChildState, change_state,
}
use clues.Tracee.Detach.{do_detach, update_executable, update_cmd_line}
use clues.Tracee.SystemCalls.{handle_system_call}
use clues.Tracee.Events.{
  handle_signal, handle_exit_event, handle_group_stop, get_initial_registers, fetch_fds, sync_fds,
}
use clues.Engine.World.{World, on, change}
use clues.Engine.Registry.{add_tracee, handle_auto_attach, handle_substitution}

-- `attachThreads`, over the entries of /proc/<pid>/task that name a thread.
abbrev is_self : ℕ → Option ℕ → Bool
is_self pid none = false
is_self pid (some own) = pid == own

unfoldable pub attach_each : Env → ℕ → List ℕ → M World (Unit {0})
attach_each env i [] = skip
attach_each env i (pid ∷ pids) = do
  w ← get
  when (not (is_self pid ((w.objects i).pid))) (
      catch
        (do
          j ← add_tracee env pid ((w.objects i).follow_children) false ((w.objects i).pid)
          change j (λ t. record t { initial_attacher = (w.objects i).pid }))
        (λ e. skip))
  attach_each env i pids

unfoldable pub attach_threads : Env → ℕ → M World (Unit {0})
attach_threads env i = do pids ← on i (ask env.tasks); attach_each env i pids

-- `handleAttached` up to the callback.
unfoldable pub finish_attach : Env → M Local (Unit {0})
finish_attach env = do
  update (λ t. record t {
    flags = record (t.flags) { wait_for_attach_stop = false };
    restart_mode = if not t.flags.injected_sigstop then syscall else t.restart_mode;
  })
  get_initial_registers env
  fetch_fds env
  s ← get
  emit (attached s.tracee.id)

-- `handleAttached`.
unfoldable pub handle_attached : Env → ℕ → M World (Unit {0})
handle_attached env i = do
  on i (finish_attach env)
  w ← get
  when ((w.objects i).flags.attach_threads_pending) (do
    catch (attach_threads env i) (λ e. skip)
    change i (λ t. record t { flags = record (t.flags) { attach_threads_pending = false } }))

-- `handleStopEvent`.
unfoldable pub handle_stop_event : Env → ℕ → ℕ → M World (Unit {0})
handle_stop_event env i signal w =
    if (w.objects i).flags.wait_for_attach_stop
    then handle_attached env i w
    else on i (handle_group_stop env signal) w

-- The assignments of `syncState`.
abbrev pub synced : Tracee → Tracee → Tracee
synced o t = record t {
  syscall_info = o.syscall_info;
  syscall_db = o.syscall_db;
  current_syscall = o.current_syscall;
  interrupted_syscall = o.interrupted_syscall;
  syscall_ctr = o.syscall_ctr;
}

-- `syncState` of tracee `i` with `other`, which ends up DEAD.
unfoldable pub sync_state : Env → ℕ → ℕ → M World (Unit {0})
sync_state env i other = do
  w ← get
  let o = w.objects other
  change i (synced o)
  change other (λ t. record t { syscall_db = [] })
  on other (change_state env dead)

abbrev take_over : Env → ℕ → ℕ → Option ℕ → M World (Unit {0})
take_over env i main_pid none = change i (λ t. record t { pid = some main_pid })
take_over env i main_pid (some other) = sync_state env i other

abbrev pub substitute : Env → ℕ → ℕ → Option ℕ → M World (Unit {0})
substitute env i main_pid none = skip
substitute env i main_pid (some former) = do
  old ← handle_substitution env former
  take_over env i main_pid old

-- The end of `handleExecEvent`, with the executable and the command line of before.
unfoldable pub finish_exec : Env → String → List (List ℕ) → Option ℕ → M Local (Unit {0})
finish_exec env executable cmdline old_pid = do
  update_executable env
  update_cmd_line env
  sync_fds env
  s ← get
  emit (new_execution_context s.tracee.id executable cmdline old_pid)

-- `handleExecEvent`.
unfoldable pub handle_exec_event : Env → ℕ → ℕ → M World (Unit {0})
unfolding finish_exec
handle_exec_event env i main_pid = do
  before ← on i get
  former ← on i (λ s. answer (env.get_pid_event_msg s.clock (some main_pid)) s)
  let old_pid = if former == main_pid then none else some former
  substitute env i main_pid old_pid
  on i (finish_exec env before.process.executable before.process.cmdline old_pid)

-- `handleNewChildEvent`; the parent must have a current system call.
abbrev call_of_parent : Option ℕ → M World ℕ
call_of_parent none w = throws null_dereference w
call_of_parent (some r) w = returns r w

unfoldable pub handle_new_child_event : Env → ℕ → PtraceEvent → M World (Unit {0})
handle_new_child_event env i event = do
  pid ← on i (ask env.get_pid_event_msg)
  w ← get
  call ← call_of_parent ((w.objects i).current_syscall)
  handle_auto_attach env i pid event call

-- `Tracee::handleEvent`.
unfoldable pub handle_ptrace_event : Env → ℕ → ℕ → PtraceEvent → ℕ → M World (Unit {0})
handle_ptrace_event env i pid event_stopped signal = handle_stop_event env i signal
handle_ptrace_event env i pid exit signal = on i (handle_exit_event env)
handle_ptrace_event env i pid exec signal = handle_exec_event env i pid
handle_ptrace_event env i pid clone signal = handle_new_child_event env i clone
handle_ptrace_event env i pid vfork signal = handle_new_child_event env i vfork
handle_ptrace_event env i pid fork signal = handle_new_child_event env i fork
handle_ptrace_event env i pid vfork_done signal = handle_new_child_event env i vfork_done
handle_ptrace_event env i pid _ signal = skip

-- A signal delivery stop: reported, and injected at the next restart.
unfoldable pub deliver : Env → ℕ → M Local (Unit {0})
deliver env signal = do
  change_state env signal_delivery_stop
  info ← ask env.get_sig_info
  handle_signal info
  update (λ t. record t { inject_sig = some signal })

-- The restart request, in the tracee's mode and with the signal to inject.
abbrev ask_restart : Env → M Local (Unit {0})
ask_restart env = do
  ask env.restart
  s ← get
  emit (restarted s.tracee.id s.tracee.restart_mode s.tracee.inject_sig)

-- The end of `processEvent`: the tracee is restarted, unless it is gone.
unfoldable pub restart_tracee : Env → M Local (Unit {0})
restart_tracee env s =
    if is_gone s.tracee.state
    then returns tt s
    else (do
      ask_restart env
      when (not (is_listen s.tracee.restart_mode)) (do
        change_state env running
        when (is_group_stop s.tracee.state) (emit (resumed_by_signal s.tracee.id))))
        s

-- The exit, kill or dump of a tracee.
unfoldable pub vanish : Env → ChildState → M Local (Unit {0})
vanish env info = do
  change_state env dead
  s ← get
  when (not s.tracee.flags.wait_for_exited) (emit (disappeared s.tracee.id info))
  update (λ t. record t { exit_data = some info })

-- A trap.
unfoldable pub handle_trap : Env → ℕ → ℕ → TrapSignal → M World (Unit {0})
handle_trap env i pid sys_trap = on i (handle_system_call env)
handle_trap env i pid (event_trap event signal) = do
  on i (change_state env event_stop)
  handle_ptrace_event env i pid event signal
handle_trap env i pid (delivery signal) = on i (deliver env signal)

abbrev pub detach_or_trap : Env → ℕ → ℕ → TrapSignal → Bool → M World (Unit {0})
detach_or_trap env i pid t true = on i (do_detach env)
detach_or_trap env i pid t false = do handle_trap env i pid t; on i (restart_tracee env)

abbrev pub other_event : Env → ℕ → ChildEvent → ℕ → M World (Unit {0})
other_event env i event signal = do
  when (env.signaled_event event) (on i (deliver env signal))
  on i (restart_tracee env)

abbrev pub dispatch : Env → ℕ → ChildState → ChildEvent → M World (Unit {0})
dispatch env i info (exited n) = on i (vanish env info)
dispatch env i info (killed n) = on i (vanish env info)
dispatch env i info (dumped n) = on i (vanish env info)
dispatch env i info (trapped t) = do
  w ← get
  detach_or_trap env i info.pid t ((w.objects i).flags.detach_at_next_stop)
dispatch env i info (stopped n) = other_event env i (stopped n) n
dispatch env i info (continued n) = other_event env i (continued n) n

-- `processEvent`.
unfoldable pub process_event : Env → ℕ → ChildState → M World (Unit {0})
process_event env i info = do
  change i (λ t. record t { inject_sig = none })
  dispatch env i info info.event
