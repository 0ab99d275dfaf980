-- ===== src/Engine/Reachable.antt =====
-- The stops of one tracee in any order: processEvent of src/Tracee.cxx as a step relation.
use clues.Common.{String, Option, List, ℕ, ◌≡◌, true, is_some}
use clues.Outcome.{final, ◌>>◌}
use clues.Tracee.State.{Tracee, Local, Env, event_stop, is_enter_stop, change_state, ask}
use clues.Tracee.SystemCalls.{handle_system_call}
use clues.Tracee.Events.{handle_group_stop, handle_exit_event}
use clues.Tracee.Safety.{last_stop}
use clues.Engine.Process.{deliver, restart_tracee, finish_attach, finish_exec, synced}

-- One stop of a tracee, or its restart; a step may end in an exception. `attach_stop` is handleAttached up
-- to the attachment of other threads. An exec by a thread whose process id is not the tracee's is two
-- steps: the takeover of the state of that thread, which is in its system call of the exec, and the exec.
-- Of the stop for a new child it is the part on the parent: the engine goes on with the child.
pub data Step (env : Env) : Local → Local → Type 0 where
  system_call : (s : Local) → Step env s (final (handle_system_call env s))
  signal_delivered : (signal : ℕ) (s : Local) → Step env s (final (deliver env signal s))
  stopped :
      (signal : ℕ) (s : Local)
      → Step env s (final ((change_state env event_stop >> handle_group_stop env signal) s))
  about_to_exit :
      (s : Local) → Step env s (final ((change_state env event_stop >> handle_exit_event env) s))
  attach_stop :
      (s : Local) → Step env s (final ((change_state env event_stop >> finish_attach env) s))
  taken_over :
      (o : Tracee) (s : Local)
      → is_some o.current_syscall ≡ true
      → Step env s (record s { tracee = synced o s.tracee })
  execed :
      (executable : String) (cmdline : List (List ℕ)) (old_pid : Option ℕ) (s : Local)
      → Step env s
          (final ((change_state env event_stop >> finish_exec env executable cmdline old_pid) s))
  new_child :
      (s : Local)
      → Step env s (final ((change_state env event_stop >> ask env.get_pid_event_msg) s))
  let_run : (s : Local) → Step env s (final (restart_tracee env s))

pub data Reachable (env : Env) (s : Local) : Local → Type 0 where
  here : Reachable env s s
  after : {t u : Local} → Reachable env s t → Step env t u → Reachable env s u

-- What a step other than a system call stop may change.
record Calm (s t : Tracee) : Type 0 where
  pub entered : t.flags.syscall_entered ≡ s.flags.syscall_entered
  pub call : t.current_syscall ≡ s.current_syscall
  pub enter_stop : is_enter_stop (last_stop t) ≡ true → is_enter_stop (last_stop s) ≡ true
