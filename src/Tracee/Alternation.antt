-- ===== src/Tracee/Alternation.antt =====
-- Entry and exit stops of system calls take turns: handleSystemCall of src/Tracee.cxx.
use clues.Common.{◌≡◌, refl, Bool, true, false, ◌&&◌, not, is_some, arith}
use clues.Outcome.{returns, throws, ok, final, runtime_error}
use clues.Abi.{Arch, Op, is_entry_op, is_exit_op, SystemCallInfo, update_sys_nr, new_info}
use clues.Tracee.State.{Local, Env, syscall_enter_stop, syscall_exit_stop, change_state}
use clues.Tracee.SystemCalls.{
  handle_system_call, handle_system_call_entry, handle_system_call_exit, db_get, resume,
}

abbrev pub entered : Local → Bool
entered s = s.tracee.flags.syscall_entered

db_get-entered :
    (env : Env) (info : SystemCallInfo) (s : Local)
    → entered (final (db_get env info s)) ≡ entered s
unfolding db_get
db_get-entered env info s = ground arith

resume-entered :
    (env : Env) (info : SystemCallInfo) (s : Local)
    → entered (final (resume env info s)) ≡ entered s
unfolding resume
resume-entered env info s = ground arith

pub entry-entered :
    (env : Env) (info : SystemCallInfo) (s : Local)
    → entered (final (handle_system_call_entry env info s)) ≡ entered s
unfolding handle_system_call_entry
entry-entered env info s = grind (arith, db_get-entered, resume-entered)

pub exit-entered :
    (env : Env) (op : Op) (s : Local)
    → entered (final (handle_system_call_exit env op s)) ≡ entered s
unfolding handle_system_call_exit
exit-entered env op s = ground arith

pub change_state-enter_entered :
    (env : Env) (s : Local) → entered (final (change_state env syscall_enter_stop s)) ≡ true
unfolding change_state
change_state-enter_entered env s = refl

pub change_state-enter_returns :
    (env : Env) (s : Local)
    → change_state env syscall_enter_stop s
      ≡ returns tt (final (change_state env syscall_enter_stop s))
unfolding change_state
change_state-enter_returns env s = refl

pub change_state-exit_entered :
    (env : Env) (s : Local) → entered (final (change_state env syscall_exit_stop s)) ≡ false
unfolding change_state
change_state-exit_entered env s = refl

pub change_state-exit_returns :
    (env : Env) (s : Local)
    → change_state env syscall_exit_stop s
      ≡ returns tt (final (change_state env syscall_exit_stop s))
unfolding change_state
change_state-exit_returns env s = refl

-- The stop that the tracee's flag lets one expect: an exit after an entry, and else an entry, of an
-- architecture that the library knows.
abbrev pub fits : Env → Bool → Op → Arch → Bool
fits env true op arch = is_exit_op op
fits env false op arch = is_entry_op op && is_some (update_sys_nr env.tables (new_info op arch))

-- When the kernel reports the stop that is due, the flag SYSCALL_ENTERED is flipped, whatever happens
-- in the handling of the stop. So entry and exit stops are taken in turns.
pub syscall_entered-flips :
    (env : Env) (op : Op) (arch : Arch) (s : Local)
    → env.get_syscall_info s.clock s.tracee.pid ≡ ok (op, arch)
    → fits env s.tracee.flags.syscall_entered op arch ≡ true
    → (final (handle_system_call env s)).tracee.flags.syscall_entered
      ≡ not s.tracee.flags.syscall_entered
unfolding handle_system_call
syscall_entered-flips env op arch s e f = grind (
  arith, change_state-enter_entered, change_state-enter_returns, change_state-exit_entered,
  change_state-exit_returns, entry-entered, exit-entered,
)

-- Where the kernel reports an exit that is not due, an entry that is not due, neither, or a due entry of an
-- architecture that the library does not know, the stop is refused with a RuntimeError: the flags stay,
-- and the consumer sees nothing. A due exit is not refused for its architecture.
pub state_mismatch :
    (env : Env) (op : Op) (arch : Arch) (s : Local)
    → env.get_syscall_info s.clock s.tracee.pid ≡ ok (op, arch)
    → fits env s.tracee.flags.syscall_entered op arch ≡ false
    → let r = handle_system_call env s in
      (r ≡ throws runtime_error (final r))
      × ((final r).tracee.flags ≡ s.tracee.flags)
      × ((final r).log ≡ s.log)
unfolding handle_system_call
state_mismatch env op arch s e f = ground arith
