-- ===== src/Tracee/Stops.antt =====
-- Group stops and the restart of a tracee: handleStopEvent and processEvent of src/Tracee.cxx.
use clues.Common.{ℕ, ◌≡◌, refl, true, false, some, [], ◌∷◌, ◌++◌, if◌then◌else◌, member, arith}
use clues.Outcome.{M, returns, ok, final, ◌>>◌}
use clues.Tracee.State.{
  group_stop, event_stop, running, Local, Env, change_state, syscall, listen, set_state,
  enter_state, stopped_by_signal, resumed_by_signal, restarted,
}
use clues.Tracee.Events.{handle_group_stop, stopping_signals, sig_trap}
use clues.Engine.Process.{restart_tracee}

-- A stopping signal stops the tracee: its state is GROUP_STOP, the signal is recorded, the consumer is
-- told once, and the tracee stays stopped (LISTEN) at the restart, unless the stop is due to the
-- SIGSTOP that the library injected: that flag is cleared, and the tracee is let run.
pub handle_group_stop_lem :
    (env : Env) (signal : ℕ) (s : Local)
    → member signal stopping_signals ≡ true
    → let r = final (handle_group_stop env signal s) in
      (handle_group_stop env signal s ≡ returns tt r)
      × (r.tracee.state ≡ group_stop)
      × (r.tracee.stop_signal ≡ some signal)
      × (r.tracee.flags.injected_sigstop ≡ false)
      × (r.tracee.restart_mode ≡ (if s.tracee.flags.injected_sigstop then syscall else listen))
      × (r.log ≡ s.log ++ stopped_by_signal s.tracee.id ∷ [])
unfolding handle_group_stop
handle_group_stop_lem env signal s h = ground arith

-- What a stopping signal leaves behind.
abbrev stopped_at : ℕ → Local → Local
unfolding set_state enter_state
stopped_at signal s = record s {
  tracee = record (set_state group_stop (enter_state group_stop s.tracee)) {
    stop_signal = some signal;
  };
  log = s.log ++ stopped_by_signal s.tracee.id ∷ [];
}

group_stop_at :
    (env : Env) (signal : ℕ) (s : Local)
    → member signal stopping_signals ≡ true
    → handle_group_stop env signal s ≡ returns tt (stopped_at signal s)
unfolding handle_group_stop
group_stop_at env signal s h = rw h refl

-- What processEvent does with a PTRACE_EVENT_STOP of a tracee that is attached.
abbrev pub stop_and_restart : Env → ℕ → M Local (Unit {0})
stop_and_restart env signal = do
  change_state env event_stop
  handle_group_stop env signal
  restart_tracee env

-- A stop with a stopping signal and the restart after it: a real group stop leaves the tracee in the
-- state GROUP_STOP, listening. When it is due to the SIGSTOP that the library injected, the tracee runs
-- on, and its resumption is reported at once.
pub group_stop_then_restart :
    (env : Env) (signal : ℕ) (s : Local)
    → member signal stopping_signals ≡ true
    → env.restart s.clock s.tracee.pid ≡ ok tt
    → let r = final (stop_and_restart env signal s) in
      (r.tracee.state ≡ (if s.tracee.flags.injected_sigstop then running else group_stop))
      × (r.log ≡ (
          if s.tracee.flags.injected_sigstop
          then ((s.log ++ stopped_by_signal s.tracee.id ∷ [])
              ++ restarted s.tracee.id syscall s.tracee.inject_sig ∷ [])
            ++ resumed_by_signal s.tracee.id ∷ []
          else (s.log ++ stopped_by_signal s.tracee.id ∷ [])
            ++ restarted s.tracee.id listen s.tracee.inject_sig ∷ []))
unfolding restart_tracee change_state
group_stop_then_restart env signal s h e = grind (arith, group_stop_at)

-- The end of a real group stop is a stop with SIGTRAP: the tracee runs on under system call tracing,
-- but the consumer is told nothing.
pub resumption_unreported :
    (env : Env) (s : Local)
    → s.tracee.state ≡ group_stop
    → env.restart s.clock s.tracee.pid ≡ ok tt
    → let r = final (stop_and_restart env sig_trap s) in
      (stop_and_restart env sig_trap s ≡ returns tt r)
      × (r.tracee.state ≡ running)
      × (r.tracee.restart_mode ≡ syscall)
      × (r.log ≡ s.log ++ restarted s.tracee.id syscall s.tracee.inject_sig ∷ [])
unfolding handle_group_stop restart_tracee change_state
resumption_unreported env s h e = ground arith
