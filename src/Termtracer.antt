-- ===== src/Termtracer.antt =====
-- The front end: the bookkeeping of system calls and of output lines in src/termtracer/TermTracer.cxx.
pub mod Pars
pub mod Lines
pub mod Callbacks
pub mod Execs
pub mod Assertions
use clues.Common.{
  ℕ, zero, suc, ◌+◌, ◌-◌, String, Bool, true, false, not, ◌&&◌, ◌||◌, ◌==◌, ltb, Option, none, some,
  is_some, List, [], ◌∷◌, if◌then◌else◌,
}
use clues.Common.Maps.{find, insert, assign, erase}

-- What a line says that is not part of a system call.
pub data Message : Type 0 where
  abi_changed resuming_interrupted signal_info attached_thread automatically_attached
        unknown_tracee :
      Message
  lost_to_exit has_exited exec_failed was_killed in_stop has_disappeared now_known_as : Message
  no_longer_running now_running detaching follow_question : Message

-- The output, in pieces: " <...unfinished>\n", "[pid] ", "--- only PID is remaining ---\n", a message with
-- its end of line, the beginning of a system call with its parameters, "<resuming ...> " with the name,
-- and the rest of a system call with its end of line.
pub data Out : Type 0 where
  unfinished_mark : Out
  pid_mark remaining : ℕ → Out
  message : Message → Out
  opened resumed : ℕ → ℕ → Out
  closed : Out

-- What the front end reads of a system call: whether it is execve or execveat, and whether it has no
-- result.
pub record ShownCall : Type 0 where
  pub nr : ℕ
  pub abi : ℕ
  pub is_exec : Bool
  pub failed : Bool

-- TermTracer: the members that its callbacks change, and the output, the last piece first.
pub record Tracer : Type 0 where
  pub active_syscall : Option (ℕ × ShownCall)
  pub unfinished_syscalls : List (ℕ × ShownCall)
  pub new_tracees : List (ℕ × ℕ)
  pub num_tracees : ℕ
  pub dropped_to_last_tracee : Bool
  pub seen_initial_exec : Bool
  pub main_tracee_pid : ℕ
  pub main_status : Option ℕ
  pub last_abi : Option ℕ
  pub log : List Out

abbrev pub write : Out → Tracer → Tracer
write o s = record s { log = o ∷ s.log }

-- The filter of m_syscall_filter; an empty one lets all through.
abbrev pub in_filter : ℕ → List ℕ → Bool
in_filter n [] = false
in_filter n (m ∷ ms) = n == m || in_filter n ms

unfoldable pub is_enabled : List ℕ → Option ShownCall → Bool
is_enabled filter none = false
is_enabled [] (some c) = true
is_enabled (f ∷ fs) (some c) = in_filter c.nr (f ∷ fs)

abbrev pub of_pid : ℕ → Option (ℕ × ShownCall) → Option ShownCall
of_pid pid none = none
of_pid pid (some (p, c)) = if p == pid then some c else none

unfoldable pub active_of : ℕ → Tracer → Option ShownCall
active_of pid s = of_pid pid s.active_syscall

abbrev pub has_active_syscall : ℕ → Tracer → Bool
has_active_syscall pid s = is_some (active_of pid s)

abbrev pub or_else : Option ShownCall → Option ShownCall → Option ShownCall
or_else none b = b
or_else (some c) b = some c

unfoldable pub current_syscall : ℕ → Tracer → Option ShownCall
unfolding active_of find
current_syscall pid s = or_else (active_of pid s) (find pid s.unfinished_syscalls)

-- `storeUnfinishedSyscallCtx` and `startNewLine`.
abbrev pub put_aside : Option (ℕ × ShownCall) → Tracer → Tracer
put_aside none s = s
put_aside (some (pid, c)) s = record s {
  unfinished_syscalls = assign pid c s.unfinished_syscalls;
  active_syscall = none;
}

abbrev pub call_in : Option (ℕ × ShownCall) → Option ShownCall
call_in none = none
call_in (some (pid, c)) = some c

unfoldable pub store_unfinished : List ℕ → Tracer → Tracer × Bool
unfolding assign is_enabled
store_unfinished filter s =
    (put_aside s.active_syscall s, is_enabled filter (call_in s.active_syscall))

abbrev pub line_head : ℕ → Tracer → Tracer
line_head pid s =
    if ltb 1 s.num_tracees
    then write (pid_mark pid) s
    else if s.dropped_to_last_tracee
    then write (remaining pid) (record s { dropped_to_last_tracee = false })
    else s

unfoldable pub start_new_line : List ℕ → ℕ → Tracer → Tracer
unfolding store_unfinished
start_new_line filter pid s = line_head pid (
    if (store_unfinished filter s).1
    then write unfinished_mark (store_unfinished filter s).0
    else (store_unfinished filter s).0)

-- A message on a line of its own.
unfoldable pub say : List ℕ → ℕ → Message → Tracer → Tracer
unfolding start_new_line
say filter pid m s = write (message m) (start_new_line filter pid s)

-- `checkResumedSyscall`, none where its assertion fails.
abbrev pub resume_stored : List ℕ → ℕ → Option ShownCall → Tracer → Option Tracer
resume_stored filter pid none s = none
resume_stored filter pid (some c) s = some (
    write (resumed pid c.nr) (
      start_new_line filter pid
        (record s { unfinished_syscalls = erase pid s.unfinished_syscalls })))

unfoldable pub check_resumed_syscall : List ℕ → ℕ → Tracer → Option Tracer
unfolding active_of find erase start_new_line
check_resumed_syscall filter pid s =
    if has_active_syscall pid s
    then some s
    else resume_stored filter pid (find pid s.unfinished_syscalls) s

-- `checkABI`; an unknown last ABI is none, and the default one a parameter.
unfoldable pub abi_reported : ℕ → ShownCall → Tracer → Bool
abi_reported default_abi c s = elim (s.last_abi) [
  | none ↦ not (c.abi == default_abi)
  | some a ↦ not (c.abi == a)
]

-- `syscallEntry`.
unfoldable pub syscall_entry : List ℕ → ℕ → ℕ → ShownCall → Bool → Tracer → Tracer
unfolding is_enabled abi_reported say start_new_line
syscall_entry filter default_abi pid c resumed_call s =
    if not (is_enabled filter (some c))
    then s
    else let told = if abi_reported default_abi c s then say filter pid abi_changed s else s in
      let head = start_new_line filter pid (record told { last_abi = some c.abi }) in
      let again = if resumed_call then write (message resuming_interrupted) head else head in
      record (write (opened pid c.nr) again) { active_syscall = some (pid, c) }

-- `syscallExit`: a call of execve or execveat that has succeeded was closed by newExecutionContext.
abbrev pub closing : Option Tracer → Option Tracer
closing none = none
closing (some s) = some (record (write closed s) { active_syscall = none })

-- `need_newline` of a call that is not the tracee's own.
abbrev pub preempting : List ℕ → ℕ → Option Tracer → Option Tracer
preempting filter pid none = none
preempting filter pid (some s) = some (
    if is_some s.active_syscall && not (has_active_syscall pid s)
    then start_new_line filter pid s
    else s)

unfoldable pub syscall_exit : List ℕ → ℕ → ShownCall → Tracer → Option Tracer
unfolding is_enabled check_resumed_syscall start_new_line active_of
syscall_exit filter pid c s =
    if c.is_exec && not c.failed
    then some s
    else if not (is_enabled filter (some c))
    then some s
    else closing (preempting filter pid (check_resumed_syscall filter pid s))

-- `abortSyscall`.
abbrev pub aborted : Bool → Option Tracer → Option Tracer
aborted enabled none = none
aborted true (some s) = some (write closed s)
aborted false (some s) = some s

unfoldable pub abort_syscall : List ℕ → ℕ → Tracer → Option Tracer
unfolding is_enabled current_syscall check_resumed_syscall active_of
abort_syscall filter pid s = aborted (is_enabled filter (current_syscall pid s)) (
    if has_active_syscall pid s
    then some (record s { active_syscall = none })
    else if is_enabled filter (current_syscall pid s)
    then check_resumed_syscall filter pid s
    else some s)

-- The counter is a size_t.
abbrev decremented : ℕ → ℕ
decremented zero = 18446744073709551615
decremented (suc n) = n

-- `cleanupTracee`.
unfoldable pub cleanup_tracee : ℕ → Tracer → Tracer
unfolding active_of erase
cleanup_tracee pid s =
    let left = decremented s.num_tracees in
    record s {
      active_syscall = if has_active_syscall pid s then none else s.active_syscall;
      unfinished_syscalls =
          if has_active_syscall pid s
          then s.unfinished_syscalls
          else erase pid s.unfinished_syscalls;
      new_tracees = erase pid s.new_tracees;
      num_tracees = left;
      dropped_to_last_tracee = s.dropped_to_last_tracee || left == 1;
    }

-- `attached`: the counter before it, and whether the tracee is known.
abbrev pub introduced : List ℕ → ℕ → Option ℕ → Tracer → Tracer
introduced filter pid none s = say filter pid unknown_tracee s
introduced filter pid (some parent) s = record (say filter pid automatically_attached s) {
  new_tracees = erase pid s.new_tracees;
}

unfoldable pub attached : List ℕ → ℕ → Bool → Tracer → Tracer
unfolding say find erase
attached filter pid initially s =
    let counted = record s { num_tracees = suc s.num_tracees } in
    if s.num_tracees == 0
    then counted
    else if initially
    then say filter pid attached_thread counted
    else introduced filter pid (find pid s.new_tracees) counted

-- `exited` and `disappeared`: the end of the process, and whether it is the main one.
abbrev pub note_main : ℕ → ℕ → Tracer → Tracer
note_main pid status s = record s {
  main_status = if pid == s.main_tracee_pid then some status else s.main_status;
}

abbrev pub told_exit : List ℕ → ℕ → Bool → Tracer → Tracer
told_exit filter pid true s =
    let told = say filter pid has_exited s in
    if s.seen_initial_exec then told else say filter pid exec_failed told
told_exit filter pid false s = say filter pid was_killed s

abbrev pub ended : List ℕ → ℕ → ℕ → Bool → Bool → Option Tracer → Option Tracer
ended filter pid status exit lost none = none
ended filter pid status exit lost (some s) =
    let told = if lost then say filter pid lost_to_exit s else s in
    some (cleanup_tracee pid (note_main pid status (told_exit filter pid exit told)))

unfoldable pub exited : List ℕ → ℕ → ℕ → Bool → Bool → Bool → Tracer → Option Tracer
unfolding abort_syscall say cleanup_tracee
exited filter pid status exit in_entry lost s =
    ended filter pid status exit lost (if in_entry then abort_syscall filter pid s else some s)

abbrev pub vanished : List ℕ → ℕ → ℕ → Bool → Option Tracer → Option Tracer
vanished filter pid status exit none = none
vanished filter pid status exit (some s) = some (
    cleanup_tracee pid (
      note_main pid status (
        say filter pid (if exit then has_exited else was_killed)
          (say filter pid has_disappeared s))))

unfoldable pub disappeared : List ℕ → ℕ → ℕ → Bool → Tracer → Option Tracer
unfolding abort_syscall say cleanup_tracee
disappeared filter pid status exit s = vanished filter pid status exit (abort_syscall filter pid s)

-- `signaled` and `stopped`.
unfoldable pub signaled : List ℕ → ℕ → Tracer → Tracer
unfolding say
signaled filter pid s = say filter pid signal_info s

unfoldable pub stopped : List ℕ → ℕ → ℕ → Tracer → Tracer
unfolding say
stopped filter pid syscall_ctr s = if syscall_ctr == 0 then say filter pid in_stop s else s

-- `updateTracee`.
abbrev pub renamed_active : ℕ → ℕ → Tracer → Option ShownCall → Option ShownCall → Tracer
renamed_active pid old s (some c) u = record s { active_syscall = some (pid, c) }
renamed_active pid old s none none = s
renamed_active pid old s none (some c) = record s {
  unfinished_syscalls = erase old (assign pid c s.unfinished_syscalls);
}

abbrev renamed_new : ℕ → ℕ → List (ℕ × ℕ) → Option ℕ → List (ℕ × ℕ)
renamed_new pid old m none = m
renamed_new pid old m (some parent) = erase old (assign pid parent m)

unfoldable pub update_tracee : ℕ → ℕ → Tracer → Tracer
unfolding active_of find erase assign
update_tracee pid old s =
    let moved = renamed_active pid old s (active_of old s) (find old s.unfinished_syscalls) in
    let left = erase pid s.new_tracees in
    record moved { new_tracees = renamed_new pid old left (find old left) }

-- `newExecutionContext`. The answer of followExecutionContext is an argument; a detach of the tracee is
-- the engine's.
abbrev pub closed_exec : Bool → List ℕ → ℕ → Tracer → Option Tracer
closed_exec false filter pid s = some s
closed_exec true filter pid s = elim (check_resumed_syscall filter pid s) [
  | none ↦ none
  | some t ↦ some (write closed t)
]

abbrev pub told_exec : List ℕ → ℕ → Bool → Bool → Tracer → Tracer
told_exec filter pid changed follow s =
    let inactive = record s { active_syscall = none } in
    let known = if changed then say filter pid now_known_as inactive else inactive in
    let before = if s.seen_initial_exec then say filter pid no_longer_running known else known in
    let now = say filter pid now_running before in
    if not s.seen_initial_exec
    then record now { seen_initial_exec = true }
    else if follow
    then now
    else say filter pid detaching now

abbrev pub told_exec_or_none : List ℕ → ℕ → Bool → Bool → Option Tracer → Option Tracer
told_exec_or_none filter pid changed follow none = none
told_exec_or_none filter pid changed follow (some s) = some (told_exec filter pid changed follow s)

abbrev pub renamed : ℕ → Option ℕ → Tracer → Tracer
renamed pid none s = s
renamed pid (some old) s = update_tracee pid old s

unfoldable pub new_execution_context : List ℕ → ℕ → Option ℕ → Bool → Tracer → Option Tracer
unfolding update_tracee is_enabled current_syscall check_resumed_syscall say
new_execution_context filter pid old_pid follow s =
    let t = renamed pid old_pid s in
    told_exec_or_none filter pid (is_some old_pid) follow
      (closed_exec (is_enabled filter (current_syscall pid t)) filter pid t)

-- `newChildProcess`: the modes, and the answer to the question.
pub data FollowChildMode : Type 0 where
  yes no ask threads : FollowChildMode

abbrev pub follows : FollowChildMode → Bool → Bool → Bool
follows yes answer cloned_thread = true
follows no answer cloned_thread = false
follows ask answer cloned_thread = answer
follows threads answer cloned_thread = cloned_thread

abbrev pub asked : FollowChildMode → List ℕ → ℕ → Tracer → Tracer
asked ask filter parent s = say filter parent follow_question s
asked m filter parent s = s

unfoldable pub new_child_process : FollowChildMode → List ℕ → ℕ → ℕ → Bool → Bool → Tracer → Tracer
unfolding say insert
new_child_process mode filter parent child answer cloned_thread s =
    let t = asked mode filter parent s in
    if follows mode answer cloned_thread
    then record t { new_tracees = insert child parent t.new_tracees }
    else t

-- The callbacks of EventConsumer, each with the tracee's process id.
pub data Callback : Type 0 where
  entry_of : ℕ → ShownCall → Bool → Callback
  exit_of : ℕ → ShownCall → Callback
  signal_of : ℕ → Callback
  attach_of : ℕ → Bool → Callback
  end_of : ℕ → ℕ → Bool → Bool → Bool → Callback
  stop_of : ℕ → ℕ → Callback
  vanish_of : ℕ → ℕ → Bool → Callback
  exec_of : ℕ → Option ℕ → Bool → Callback
  child_of : FollowChildMode → ℕ → ℕ → Bool → Bool → Callback

unfoldable pub run_callback : List ℕ → ℕ → Callback → Tracer → Option Tracer
unfolding syscall_entry syscall_exit signaled attached exited stopped disappeared
    new_execution_context new_child_process
run_callback filter abi (entry_of pid c r) s = some (syscall_entry filter abi pid c r s)
run_callback filter abi (exit_of pid c) s = syscall_exit filter pid c s
run_callback filter abi (signal_of pid) s = some (signaled filter pid s)
run_callback filter abi (attach_of pid i) s = some (attached filter pid i s)
run_callback filter abi (end_of pid st x e l) s = exited filter pid st x e l s
run_callback filter abi (stop_of pid n) s = some (stopped filter pid n s)
run_callback filter abi (vanish_of pid st x) s = disappeared filter pid st x s
run_callback filter abi (exec_of pid old f) s = new_execution_context filter pid old f s
run_callback filter abi (child_of m p c x y) s = some (new_child_process m filter p c x y s)
