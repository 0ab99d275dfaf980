-- ===== src/Tracee/SystemCalls.antt =====
-- System call stops: handleSystemCall, handleSystemCallEntry, handleSystemCallExit,
-- tryRecoverRestartedSystemCall, getInitialSyscallInfo and build_syscall_info of src/Tracee.cxx, and
-- SystemCallDB::get of src/SystemCallDB.cxx.
use clues.Common.{
  ℕ, suc, ◌+◌, ◌%◌, ◌^◌, Bool, true, false, ◌&&◌, ◌||◌, not, Option, none, some, ◌==◌,
  if◌then◌else◌, is_some, ltb,
}
use clues.Common.Maps
use clues.Outcome.{
  M, returns, throws, Exception, runtime_error, null_dereference, ◌>>=◌, ◌>>◌, pure, when, throw,
  get, errno_interrupted,
}
use clues.Errno.{ErrnoResult, has_kernel_error_code}
use clues.Abi.{
  Abi, unknown, x86_64, i386, x32, aarch64, abi_eq, Arch, arch_i386, arch_x86_64, arch_aarch64,
  arch_other, Op, entry, is_entry_op, is_exit_op, SystemCallInfo, new_info, update_sys_nr,
  verify_arch,
}
use clues.Calls.{SystemCall, set_entry_info, set_exit_info}
use clues.Tracee.State.{
  syscall_enter_stop, syscall_exit_stop, Tracee, Local, Env, ask, update, emit, no_status,
  syscall_entry, syscall_exit, RegisterSet, change_state,
}

-- SystemCallNr values, and SYSTEM_CALL_COUNT.
abbrev pub nr_restart_syscall : ℕ
nr_restart_syscall = 310

abbrev pub nr_rt_sigreturn : ℕ
nr_rt_sigreturn = 317

abbrev pub nr_sigreturn : ℕ
nr_sigreturn = 396

abbrev pub system_call_count : ℕ
system_call_count = 471

abbrev pub size_mod : ℕ
size_mod = 2 ^ 64

-- Reading and writing the heap of system calls.
abbrev pub store : (ℕ → SystemCall) → ℕ → SystemCall → ℕ → SystemCall
store heap r c i = if i == r then c else heap i

-- SystemCallDB::get: the object for the number, made at its first use, and kept unless it is one of
-- the system calls that come in several classes.
abbrev get_or_create : Env → ℕ → Option ℕ → M Local ℕ
get_or_create env nr (some r) s = returns r s
get_or_create env nr none s = returns s.next_call (record s {
  heap = store s.heap s.next_call (env.new_call nr);
  next_call = suc s.next_call;
  tracee = record (s.tracee) {
    syscall_db =
        if env.is_cached nr
        then Maps.insert nr s.next_call s.tracee.syscall_db
        else s.tracee.syscall_db;
  };
})

unfoldable pub db_get : Env → SystemCallInfo → M Local ℕ
db_get env info s = get_or_create env info.generic (Maps.find info.generic s.tracee.syscall_db) s

-- `build_syscall_info`: an entry made up from registers.
abbrev pub arch_of : Abi → Arch
arch_of i386 = arch_i386
arch_of x86_64 = arch_x86_64
arch_of x32 = arch_x86_64
arch_of aarch64 = arch_aarch64
arch_of unknown = arch_other

unfoldable pub build_syscall_info : Env → RegisterSet → Option SystemCallInfo
unfolding update_sys_nr
build_syscall_info env rs =
    update_sys_nr env.tables (new_info (entry rs.nr rs.pars) (arch_of rs.abi))

-- `getInitialSyscallInfo`.
unfoldable pub get_initial_syscall_info : Env → Abi → RegisterSet → Option SystemCallInfo
unfolding build_syscall_info
get_initial_syscall_info env abi rs = if abi_eq abi rs.abi then build_syscall_info env rs else none

-- `tryRecoverRestartedSystemCall`.
abbrev recover : Env → Option SystemCallInfo → M Local Bool
recover env none s = returns false s
recover env (some info) s =
    if info.generic == nr_restart_syscall
    then returns false s
    else if not (ltb info.generic system_call_count)
    then returns false s
    else (do r ← db_get env info; update (λ t. record t { current_syscall = some r }); pure true) s

unfoldable pub try_recover_restarted_system_call : Env → SystemCallInfo → M Local Bool
unfolding db_get get_initial_syscall_info
try_recover_restarted_system_call env info s =
    recover env (get_initial_syscall_info env info.abi s.tracee.initial_regset) s

abbrev pub call_nr : Local → Option ℕ → Option ℕ
call_nr s none = none
call_nr s (some r) = some ((s.heap r).nr)

abbrev pub same_nr : Option ℕ → Option ℕ → Bool
same_nr (some a) (some b) = a == b
same_nr _ _ = false

-- The part of `handleSystemCallEntry` about resumed system calls: whether RESUMED is set.
unfoldable pub resume : Env → SystemCallInfo → M Local Bool
unfolding try_recover_restarted_system_call
resume env info s =
    if info.generic == nr_restart_syscall
    then (if is_some s.tracee.interrupted_syscall
        then returns true (record s {
          tracee = record (s.tracee) {
            current_syscall = s.tracee.interrupted_syscall;
            interrupted_syscall = none;
          };
        })
        else if not (s.tracee.syscall_ctr == 0)
        then returns false s
        else try_recover_restarted_system_call env info s)
    else if is_some s.tracee.interrupted_syscall && s.tracee.flags.seen_sigreturn
    then returns
        (same_nr (call_nr s s.tracee.interrupted_syscall) (call_nr s s.tracee.current_syscall))
        (record s {
          tracee = record (s.tracee) {
            flags = record (s.tracee.flags) { seen_sigreturn = false };
            interrupted_syscall = none;
          };
        })
    else returns false s

-- The current system call; to read through a null pointer is the end of the model.
abbrev deref : Option ℕ → M Local ℕ
deref (some r) s = returns r s
deref none s = throws null_dereference s

abbrev pub current : M Local ℕ
current s = deref s.tracee.current_syscall s

-- The outcome of an item's calls, as an exception.
abbrev raise : Option Exception → M Local (Unit {0})
raise none s = returns tt s
raise (some e) s = throws e s

abbrev enter_call : Env → SystemCallInfo → ℕ → M Local (Unit {0})
enter_call env info r s =
    let run = set_entry_info (env.hooks (s.heap r)) info (s.heap r) in
    raise run.1 (record s { heap = store s.heap r run.0 })

-- `handleSystemCallEntry`.
unfoldable pub handle_system_call_entry : Env → SystemCallInfo → M Local (Unit {0})
handle_system_call_entry env info = do
  r ← db_get env info
  update (λ t. record t { current_syscall = some r })
  s ← get
  let last_abi = (s.heap r).abi
  let abi_changed = not (abi_eq last_abi unknown) && not (abi_eq last_abi info.abi)
  when (not (verify_arch env.build info)) (throw runtime_error)
  resumed ← resume env info
  c ← current
  enter_call env info c
  update (λ t. record t { syscall_ctr = (t.syscall_ctr + 1) % size_mod })
  u ← get
  emit (
      syscall_entry u.tracee.id (u.heap c).nr
        (record no_status { abi_changed = abi_changed; resumed = resumed }))

abbrev pub kernel_error : Option ErrnoResult → Bool
kernel_error none = false
kernel_error (some e) = has_kernel_error_code e

-- An error that is a visible EINTR.
abbrev pub is_eintr : Option ℕ → Bool
is_eintr none = false
is_eintr (some e) = e == errno_interrupted

abbrev pub visible_eintr : Option ErrnoResult → Bool
visible_eintr none = false
visible_eintr (some e) = is_eintr e.errno

abbrev pub is_sigreturn : ℕ → Bool
is_sigreturn nr = nr == nr_rt_sigreturn || nr == nr_sigreturn

abbrev exit_call : Env → Op → ℕ → M Local (Unit {0})
exit_call env op r s =
    let run = set_exit_info (env.hooks (s.heap r)) op (s.heap r) s.process.fd_info_map in
    raise run.2 (record s {
      heap = store s.heap r run.0;
      process = record (s.process) { fd_info_map = run.1 };
    })

-- What the end of a sigreturn says about an interrupted system call.
unfoldable pub after_sigreturn : SystemCall → Tracee → Tracee
after_sigreturn call t =
    if is_some t.interrupted_syscall && is_sigreturn call.nr
    then (if visible_eintr call.error
        then record t { interrupted_syscall = none }
        else record t { flags = record (t.flags) { seen_sigreturn = true } })
    else t

-- `handleSystemCallExit`.
unfoldable pub handle_system_call_exit : Env → Op → M Local (Unit {0})
unfolding after_sigreturn
handle_system_call_exit env op = do
  r ← current
  exit_call env op r
  s ← get
  let call = s.heap r
  let interrupted = kernel_error call.error
  when interrupted (update (λ t. record t { interrupted_syscall = some r }))
  emit (syscall_exit s.tracee.id call.nr (record no_status { interrupted = interrupted }))
  update (after_sigreturn call)
  update (λ t. record t { current_syscall = none })

abbrev with_number : Option SystemCallInfo → M Local SystemCallInfo
with_number none s = throws runtime_error s
with_number (some info) s =
    returns info (record s { tracee = record (s.tracee) { syscall_info = some info } })

-- `handleSystemCall`; a stop that does not fit the flag throws.
unfoldable pub handle_system_call : Env → M Local (Unit {0})
handle_system_call env = do
  update (λ t. record t { syscall_info = some (new_info Op.no_op arch_other) })
  (op, arch) ← ask env.get_syscall_info
  let info = new_info op arch
  update (λ t. record t { syscall_info = some info })
  s ← get
  (if s.tracee.flags.syscall_entered
      then (do
        when (not (is_exit_op op)) (throw runtime_error)
        change_state env syscall_exit_stop
        handle_system_call_exit env op)
      else (do
        when (not (is_entry_op op)) (throw runtime_error)
        numbered ← with_number (update_sys_nr env.tables info)
        change_state env syscall_enter_stop
        handle_system_call_entry env numbered))
  update (λ t. record t { syscall_info = none })
