-- ===== src/Tracee/Events.antt =====
-- Other stops of a tracee: handleSignal, handleExitEvent, the group stop of handleStopEvent,
-- getInitialRegisters, syncFDsAfterExec and hasClonedThread of src/Tracee.cxx, and the sharing of
-- process data in src/AutoAttachedTracee.cxx.
use clues.Common.{
  ℕ, Bool, true, false, ◌&&◌, ◌||◌, not, Option, none, some, List, [], ◌∷◌, ◌==◌, if◌then◌else◌,
  member,
}
use clues.Outcome.{
  M, returns, throws, Exception, runtime_error, null_dereference, ◌>>=◌, ◌>>◌, when, throw, catch,
  get, Response, ok, fails,
}
use clues.Abi.{Abi, x86_64, i386, x32, get_default_abi}
use clues.Calls.{SystemCall}
use clues.Fd.{FdInfo, FdInfoMap, track_fd}
use clues.Fd.Exec.{sync_fds_after_exec}
use clues.Tracee.State.{
  group_stop, is_enter_stop, Local, Env, ask, look, update, emit, no_status, WaitStatus,
  exit_status, term_signal, signaled, exit_seen, stopped_by_signal, change_state, syscall,
  RegisterSet, CloneFlags,
}
use clues.Tracee.Detach.{sig_cont}
use clues.Tracee.SystemCalls.{call_nr}

abbrev pub nr_exit : ℕ
nr_exit = 57

abbrev pub nr_exit_group : ℕ
nr_exit_group = 58

abbrev pub nr_clone : ℕ
nr_clone = 33

abbrev pub nr_clone3 : ℕ
nr_clone3 = 34

-- SIGSTOP, SIGTSTP, SIGTTIN, SIGTTOU, and SIGTRAP.
abbrev pub stopping_signals : List ℕ
stopping_signals = 19 ∷ 20 ∷ 21 ∷ 22 ∷ []

abbrev pub sig_trap : ℕ
sig_trap = 5

-- `handleSignal`: the SIGCONT that the library sent itself is not reported.
unfoldable pub handle_signal : ℕ → M Local (Unit {0})
handle_signal signal s =
    if s.tracee.flags.injected_sigcont && signal == sig_cont
    then update (λ t. record t { flags = record (t.flags) { injected_sigcont = false } }) s
    else emit (signaled s.tracee.id signal) s

abbrev pub regular_exit : WaitStatus → Bool
regular_exit (exit_status c) = true
regular_exit (term_signal n) = false

abbrev pub exit_number : ℕ → Bool
exit_number nr = nr == nr_exit_group || nr == nr_exit

-- Whether no exit call of the tracee itself explains the exit; the number is read only after an
-- entry stop, and then there must be a current system call.
abbrev pub no_exit_call : Option ℕ → M Local Bool
no_exit_call none s = throws null_dereference s
no_exit_call (some nr) s = returns (not (exit_number nr)) s

unfoldable pub lost_to_mt_exit_of : WaitStatus → M Local Bool
lost_to_mt_exit_of status s =
    if not (regular_exit status)
    then returns false s
    else if not (is_enter_stop s.tracee.prev_state)
    then returns true s
    else no_exit_call (call_nr s s.tracee.current_syscall) s

-- `handleExitEvent`.
unfoldable pub handle_exit_event : Env → M Local (Unit {0})
handle_exit_event env = do
  status ← ask env.get_exit_event_msg
  lost ← lost_to_mt_exit_of status
  s ← get
  emit (exit_seen s.tracee.id status (record no_status { lost_to_mt_exit = lost }))
  update (λ t. record t { flags = record (t.flags) { wait_for_exited = true } })

-- The part of `handleStopEvent` for a tracee that is attached already.
unfoldable pub handle_group_stop : Env → ℕ → M Local (Unit {0})
unfolding change_state
handle_group_stop env signal s =
    if member signal stopping_signals
    then (do
      change_state env group_stop
      update (λ t. record t { stop_signal = some signal })
      emit (stopped_by_signal s.tracee.id))
        s
    else if signal == sig_trap
    then update (λ t. record t { restart_mode = syscall }) s
    else returns tt s

-- `getRegisters`: a short read is a RuntimeError of `iovFilled`.
abbrev complete : Option RegisterSet → M Local RegisterSet
complete none s = throws runtime_error s
complete (some rs) s = returns rs s

abbrev get_registers : Env → Abi → M Local (Unit {0})
get_registers env abi = do
  answer ← ask (env.get_registers abi)
  rs ← complete answer
  update (λ t. record t { initial_regset = rs })

abbrev is_x86_64 : Abi → Bool
is_x86_64 x86_64 = true
is_x86_64 _ = false

-- A RuntimeError on x86_64 makes the library try the registers of i386; others pass.
abbrev retry_i386 : Env → Abi → Exception → M Local (Unit {0})
retry_i386 env abi runtime_error =
    if is_x86_64 abi then get_registers env i386 else throw runtime_error
retry_i386 env abi e = throw e

-- `getInitialRegisters`: on x86_64 the registers are read again if the call is one of x32.
unfoldable pub get_initial_registers : Env → M Local (Unit {0})
unfolding get_default_abi
get_initial_registers env = do
  let abi = get_default_abi env.build
  catch
      (do
        get_registers env abi
        s ← get
        when (is_x86_64 abi && env.tables.is_x32 s.tracee.initial_regset.nr)
            (get_registers env x32))
      (retry_i386 env abi)

-- The entries that `handleAttached` puts into an empty map.
unfoldable pub insert_all : List FdInfo → FdInfoMap → FdInfoMap
unfolding track_fd
insert_all [] m = m
insert_all (i ∷ is) m = insert_all is (track_fd i m)

abbrev is_empty : FdInfoMap → Bool
is_empty [] = true
is_empty (e ∷ m) = false

abbrev pub set_fds : FdInfoMap → M Local (Unit {0})
set_fds m s = returns tt (record s { process = record (s.process) { fd_info_map = m } })

abbrev initial_fds : Response (List FdInfo) → FdInfoMap → FdInfoMap
initial_fds (ok infos) m = insert_all infos m
initial_fds (fails e) m = m

unfoldable pub fetch_fds : Env → M Local (Unit {0})
unfolding insert_all
fetch_fds env s =
    if is_empty s.process.fd_info_map
    then (do infos ← look env.fd_infos; set_fds (initial_fds infos s.process.fd_info_map)) s
    else returns tt s

-- `syncFDsAfterExec`.
unfoldable pub sync_fds : Env → M Local (Unit {0})
unfolding sync_fds_after_exec
sync_fds env = do
  left ← look env.open_fds
  s ← get
  set_fds (sync_fds_after_exec left s.process.fd_info_map)

-- `hasClonedThread`; for clone3() the arguments are read without a test that they are there.
abbrev thread_flag : Option CloneFlags → M Local Bool
thread_flag none s = throws null_dereference s
thread_flag (some f) s = returns f.thread s

abbrev cloned_thread_of : Env → SystemCall → M Local Bool
cloned_thread_of env c s =
    if c.nr == nr_clone
    then returns ((env.clone_flags c).thread) s
    else if c.nr == nr_clone3
    then thread_flag (env.clone3_flags c) s
    else returns false s

abbrev cloned_thread_at : Env → Option ℕ → M Local Bool
cloned_thread_at env none s = returns false s
cloned_thread_at env (some r) s = cloned_thread_of env (s.heap r) s

unfoldable pub has_cloned_thread : Env → M Local Bool
has_cloned_thread env s = cloned_thread_at env s.tracee.current_syscall s

-- `shares_file_descriptors_with_parent`.
abbrev share_flag : Option CloneFlags → Bool
share_flag none = false
share_flag (some f) = f.share_files

unfoldable pub shares_file_descriptors_with_parent : Env → SystemCall → Bool
shares_file_descriptors_with_parent env c =
    if c.nr == nr_clone3
    then share_flag (env.clone3_flags c)
    else if c.nr == nr_clone
    then (env.clone_flags c).share_files
    else false
