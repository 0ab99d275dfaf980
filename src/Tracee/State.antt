-- ===== src/Tracee/State.antt =====
-- Tracee::changeState of src/Tracee.cxx, with ChildTracee::cleanupChild, and the steps that the
-- functions of a tracee are made of.
pub mod Data
use clues.Common.{
  ℕ, suc, String, Bool, true, false, ◌&&◌, not, Option, none, List, [], ◌∷◌, ◌++◌, ◌==◌,
  if◌then◌else◌,
}
use clues.Outcome.{
  M, returns, throws, Response, ok, fails, api_error, ◌>>◌, when, throw, errno_no_child,
}
use clues.Abi.{Abi, Arch, Op, SystemCallInfo, Build, Tables}
use clues.Calls.{SystemCall, Hooks}
use clues.Fd.{FdInfo, FdInfoMap}
unfoldable pub use Data.*

-- A request to the kernel about the current tracee.
abbrev pub answer : {A : Type 0} → Response A → M Local A
answer (ok a) s = returns a (record s { clock = suc s.clock })
answer (fails e) s = throws (api_error e) (record s { clock = suc s.clock })

abbrev pub ask : {A : Type 0} → (ℕ → Option ℕ → Response A) → M Local A
ask f s = answer (f s.clock s.tracee.pid) s

-- A look into the proc file system, which does not throw here.
abbrev pub look : {A : Type 0} → (ℕ → Option ℕ → A) → M Local A
look f s = returns (f s.clock s.tracee.pid) (record s { clock = suc s.clock })

abbrev pub update : (Tracee → Tracee) → M Local (Unit {0})
update f s = returns tt (record s { tracee = f s.tracee })

abbrev pub emit : Effect → M Local (Unit {0})
emit e s = returns tt (record s { log = s.log ++ e ∷ [] })

-- The changes of the flags and of the restart mode that come with a new state.
unfoldable pub enter_state : State → Tracee → Tracee
enter_state syscall_enter_stop t = record t { flags = record (t.flags) { syscall_entered = true } }
enter_state syscall_exit_stop t = record t { flags = record (t.flags) { syscall_entered = false } }
enter_state group_stop t =
    if t.flags.injected_sigstop
    then record t { flags = record (t.flags) { injected_sigstop = false }; restart_mode = syscall }
    else record t { restart_mode = listen }
enter_state detached t = record t { flags = record (t.flags) { detach_at_next_stop = false } }
enter_state _ t = t

-- The rest of `changeState`: the previous state (RUNNING is none), the stop signal, and the state.
unfoldable pub set_state : State → Tracee → Tracee
set_state new t =
    let prev = if is_running t.state then t.prev_state else t.state in
    record t {
      prev_state = prev;
      stop_signal =
          if is_group_stop prev && not (is_group_stop t.state) then none else t.stop_signal;
      state = new;
    }

-- ChildTracee::cleanupChild: the child is waited for; that there is none is no error.
abbrev pub wait_result : Response (Unit {0}) → M Local (Unit {0})
wait_result (ok _) s =
    returns tt (record s { tracee = record (s.tracee) { child_running = false } })
wait_result (fails e) s = when (not (e == errno_no_child)) (throw (api_error e)) s

abbrev wait_child : Env → M Local (Unit {0})
wait_child env s =
    wait_result (env.wait_child s.clock s.tracee.pid) (record s { clock = suc s.clock })

unfoldable pub cleanup_child : Env → M Local (Unit {0})
cleanup_child env s = when s.tracee.child_running (wait_child env) s

abbrev cleanup_if_dead : Env → State → M Local (Unit {0})
cleanup_if_dead env dead s = when (is_child s.tracee.kind) (cleanup_child env) s
cleanup_if_dead env _ s = returns tt s

-- `changeState`.
unfoldable pub change_state : Env → State → M Local (Unit {0})
unfolding enter_state set_state cleanup_child
change_state env new = do update (enter_state new); cleanup_if_dead env new; update (set_state new)
