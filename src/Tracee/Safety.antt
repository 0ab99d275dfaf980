-- ===== src/Tracee/Safety.antt =====
-- No null pointer is read at the stops of a tracee: the current system call is there when
-- handleSystemCallExit and handleExitEvent of src/Tracee.cxx need it.
use clues.Common.{
  ℕ, suc, ◌≡◌, refl, Bool, true, false, not, Option, none, some, if◌then◌else◌, is_some, arith,
  Bool-cases, Option-cases, inl, inr,
}
use clues.Common.Maps
use clues.Outcome.{returns, ok, final, ◌>>◌}
use clues.Abi.{Op, SystemCallInfo}
use clues.Tracee.State.{
  State, Tracee, Local, Env, syscall_enter_stop, syscall_exit_stop, WaitStatus, exit_status,
  term_signal, event_stop, change_state, enter_state, set_state, is_running, is_enter_stop,
}
use clues.Tracee.SystemCalls.{
  handle_system_call, handle_system_call_entry, handle_system_call_exit, db_get, resume,
}
use clues.Tracee.Alternation.{
  entered, change_state-enter_returns, change_state-exit_entered, change_state-exit_returns,
  exit-entered,
}
use clues.Tracee.Events.{handle_exit_event, lost_to_mt_exit_of, exit_number}

-- The last state other than RUNNING.
abbrev pub last_stop : Tracee → State
last_stop t = if is_running t.state then t.prev_state else t.state

-- While a system call is entered, and after an entry stop, the current system call is known.
pub record HasCall (t : Tracee) : Type 0 where
  pub in_call : t.flags.syscall_entered ≡ true → is_some t.current_syscall ≡ true
  pub at_entry : is_enter_stop (last_stop t) ≡ true → is_some t.current_syscall ≡ true

-- The system call object that the database answers.
abbrev pub place : Option ℕ → Local → ℕ
place (some r) s = r
place none s = s.next_call

pub db_get-returns :
    (env : Env) (info : SystemCallInfo) (s : Local)
    → db_get env info s
      ≡ returns (place (Maps.find info.generic s.tracee.syscall_db) s) (final (db_get env info s))
unfolding db_get
db_get-returns env info s = ground arith

-- The end of `resume` leaves a current system call.
pub resume-known :
    (env : Env) (info : SystemCallInfo) (s : Local)
    → is_some s.tracee.current_syscall ≡ true
    → is_some (final (resume env info s)).tracee.current_syscall ≡ true
unfolding resume
resume-known env info s h = ground arith

entry-known :
    (env : Env) (info : SystemCallInfo) (s : Local)
    → is_some (final (handle_system_call_entry env info s)).tracee.current_syscall ≡ true
unfolding handle_system_call_entry
entry-known env info s = grind (arith, db_get-returns, resume-known)

-- Neither half of the handling of a system call touches the states.
db_get-state :
    (env : Env) (info : SystemCallInfo) (s : Local)
    → last_stop (final (db_get env info s)).tracee ≡ last_stop s.tracee
unfolding db_get
db_get-state env info s = ground arith

resume-state :
    (env : Env) (info : SystemCallInfo) (s : Local)
    → last_stop (final (resume env info s)).tracee ≡ last_stop s.tracee
unfolding resume
resume-state env info s = ground arith

exit-state :
    (env : Env) (op : Op) (s : Local)
    → last_stop (final (handle_system_call_exit env op s)).tracee ≡ last_stop s.tracee
unfolding handle_system_call_exit
exit-state env op s = ground arith

change_state-exit_known :
    (env : Env) (s : Local)
    → (final (change_state env syscall_exit_stop s)).tracee.current_syscall
      ≡ s.tracee.current_syscall
unfolding change_state
change_state-exit_known env s = refl

call-in_call :
    (env : Env) (s : Local)
    → (s.tracee.flags.syscall_entered ≡ true → is_some s.tracee.current_syscall ≡ true)
    → entered (final (handle_system_call env s)) ≡ true
    → is_some (final (handle_system_call env s)).tracee.current_syscall ≡ true
unfolding handle_system_call
call-in_call env s h = grind (
  arith, change_state-exit_returns, change_state-enter_returns, change_state-exit_entered,
  exit-entered, entry-known,
)

entry-state :
    (env : Env) (info : SystemCallInfo) (s : Local)
    → last_stop (final (handle_system_call_entry env info s)).tracee ≡ last_stop s.tracee
unfolding handle_system_call_entry
entry-state env info s = grind (arith, db_get-state, resume-state)

change_state-exit_stop :
    (env : Env) (s : Local)
    → last_stop (final (change_state env syscall_exit_stop s)).tracee ≡ syscall_exit_stop
unfolding change_state
change_state-exit_stop env s = refl

change_state-enter_stop :
    (env : Env) (s : Local)
    → last_stop (final (change_state env syscall_enter_stop s)).tracee ≡ syscall_enter_stop
unfolding change_state
change_state-enter_stop env s = refl

call-at_entry :
    (env : Env) (s : Local)
    → (is_enter_stop (last_stop s.tracee) ≡ true → is_some s.tracee.current_syscall ≡ true)
    → is_enter_stop (last_stop (final (handle_system_call env s)).tracee) ≡ true
    → is_some (final (handle_system_call env s)).tracee.current_syscall ≡ true
unfolding handle_system_call
call-at_entry env s h = grind (
  arith, change_state-exit_returns, change_state-enter_returns, change_state-exit_stop, exit-state,
  entry-known,
)

-- A system call stop keeps the current system call known while it must be, whether or not the handling
-- throws.
pub handle_system_call-HasCall :
    (env : Env) (s : Local) → HasCall s.tracee → HasCall (final (handle_system_call env s)).tracee
handle_system_call-HasCall env s h = record {
  in_call = call-in_call env s h.in_call;
  at_entry = call-at_entry env s h.at_entry;
}

lost_to_mt_exit-returns :
    (status : WaitStatus) (s : Local)
    → (is_enter_stop s.tracee.prev_state ≡ true → is_some s.tracee.current_syscall ≡ true)
    → (b : Bool) × (lost_to_mt_exit_of status s ≡ returns b s)
unfolding lost_to_mt_exit_of
lost_to_mt_exit-returns (term_signal n) s h = (false, refl)
lost_to_mt_exit-returns (exit_status c) s h =
    elim (Bool-cases (is_enter_stop s.tracee.prev_state)) [
      | inr p ↦ (true, rw p refl)
      | inl p ↦ elim (Option-cases s.tracee.current_syscall) [
        | inl e ↦ absurd (cc (h p, e))
        | inr (r, e) ↦ (not (exit_number (s.heap r).nr), rw (p, e) refl)
      ]
    ]

-- An exit event is handled without a null pointer: when what the kernel reports is a regular exit
-- right after an entry stop, the number of the current system call is there to be read.
pub handle_exit_event-total :
    (env : Env) (status : WaitStatus) (s : Local)
    → HasCall s.tracee
    → env.get_exit_event_msg s.clock s.tracee.pid ≡ ok status
    → let r = final ((change_state env event_stop >> handle_exit_event env) s) in
      ((change_state env event_stop >> handle_exit_event env) s ≡ returns tt r)
      × (r.tracee.flags.wait_for_exited ≡ true)
unfolding handle_exit_event change_state enter_state set_state
handle_exit_event-total env status s h e = grind (arith, found.1)
  where
    found :
        let t = record s { tracee = set_state event_stop s.tracee; clock = suc s.clock } in
        (b : Bool) × (lost_to_mt_exit_of status t ≡ returns b t)
    found = lost_to_mt_exit-returns status _ h.at_entry
