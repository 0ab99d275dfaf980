-- ===== src/Termtracer/Execs.antt =====
-- newExecutionContext, and the front end as a consumer of any callbacks.
use clues.Common.{
  ℕ, ◌≡◌, refl, ap, sym, ◌∙◌, Bool, true, false, not, ◌==◌, ◌⊎◌, Option, none, some, is_some, List,
  if◌then◌else◌, inl, inr,
}
use clues.Common.Maps.{find}
use clues.Termtracer.{
  ShownCall, Tracer, closed, write, is_enabled, say, active_of, of_pid, current_syscall,
  check_resumed_syscall, renamed_active, update_tracee, renamed, closed_exec, told_exec,
  told_exec_or_none, new_execution_context, now_known_as, no_longer_running, now_running, detaching,
  Callback, entry_of, exit_of, signal_of, attach_of, end_of, stop_of, vanish_of, exec_of, child_of,
  run_callback,
}
use clues.Termtracer.Lines.{enabled_in, LinesMatch, Writable, UnlessFailed, check_resumed-Writable}
use clues.Termtracer.Callbacks.{
  if-holds, say-LinesMatch, syscall_entry-LinesMatch, syscall_exit-LinesMatch, exited-LinesMatch,
  disappeared-LinesMatch, attached-LinesMatch, signaled-LinesMatch, stopped-LinesMatch,
  new_child-LinesMatch,
}

taken :
    (filter : List ℕ) (b : Bool) (c d : ShownCall)
    → (if b then some d else none) ≡ some c
    → is_enabled filter (some d) ≡ true
    → is_enabled filter (some c) ≡ true
taken filter true c d e h = ap (is_enabled filter) (sym e) ∙ h
taken filter false c d e h = absurd cc

own-call :
    (filter : List ℕ) (old : ℕ) (o : Option (ℕ × ShownCall)) (c : ShownCall)
    → of_pid old o ≡ some c
    → enabled_in filter o ≡ true
    → (is_some o ≡ true) × (is_enabled filter (some c) ≡ true)
own-call filter old none c e h = absurd cc
own-call filter old (some (p, d)) c e h = (refl, taken filter (p == old) c d e h)

renamed-LinesMatch :
    (filter : List ℕ) (pid old : ℕ) (s : Tracer) (o u : Option ShownCall)
    → of_pid old s.active_syscall ≡ o
    → LinesMatch filter s
    → LinesMatch filter (renamed_active pid old s o u)
renamed-LinesMatch filter pid old s (some c) u e h =
    let k = own-call filter old s.active_syscall c e h.2 in (h.0, h.1 ∙ k.0, k.1)
renamed-LinesMatch filter pid old s none none e h = h
renamed-LinesMatch filter pid old s none (some c) e h = h

update_tracee-LinesMatch :
    (filter : List ℕ) (pid : ℕ) (old : Option ℕ) (s : Tracer)
    → LinesMatch filter s
    → LinesMatch filter (renamed pid old s)
unfolding update_tracee active_of
update_tracee-LinesMatch filter pid none s h = h
update_tracee-LinesMatch filter pid (some old) s h =
    renamed-LinesMatch filter pid old s (of_pid old s.active_syscall)
      (find old s.unfinished_syscalls) refl h

told_exec-LinesMatch :
    (filter : List ℕ) (pid : ℕ) (changed follow : Bool) (s : Tracer)
    → LinesMatch filter (record s { active_syscall = none })
    → LinesMatch filter (told_exec filter pid changed follow s)
told_exec-LinesMatch filter pid changed follow s h =
    let inactive = record s { active_syscall = none } in
    let known = if changed then say filter pid now_known_as inactive else inactive in
    let before = if s.seen_initial_exec then say filter pid no_longer_running known else known in
    let now = say filter pid now_running before in
    let one =
      if-holds (LinesMatch filter) changed (say filter pid now_known_as inactive) inactive
        (say-LinesMatch filter pid now_known_as inactive h) h in
    let two =
      if-holds (LinesMatch filter) s.seen_initial_exec (say filter pid no_longer_running known)
        known (say-LinesMatch filter pid no_longer_running known one) one in
    let three = say-LinesMatch filter pid now_running before two in
    if-holds (LinesMatch filter) (not s.seen_initial_exec) (record now { seen_initial_exec = true })
      (if follow then now else say filter pid detaching now) three
      (if-holds (LinesMatch filter) follow now (say filter pid detaching now) three
        (say-LinesMatch filter pid detaching now three))

closed_exec-LinesMatch :
    (filter : List ℕ) (pid : ℕ) (changed follow : Bool) (o : Option Tracer)
    → UnlessFailed (Writable pid) o
    → UnlessFailed (LinesMatch filter) (
        told_exec_or_none filter pid changed follow
          (elim o [ none ↦ none | some t ↦ some (write closed t) ]))
closed_exec-LinesMatch filter pid changed follow none h = tt
closed_exec-LinesMatch filter pid changed follow (some t) h =
    told_exec-LinesMatch filter pid changed follow (write closed t) (rw (h.0, h.1) refl, refl, refl)

-- The system call of the exec is shown, or no other line is open.
abbrev pub Undisturbed : List ℕ → ℕ → Option ℕ → Tracer → Type 0
Undisturbed filter pid old_pid s =
    (is_enabled filter (current_syscall pid (renamed pid old_pid s)) ≡ true)
    ⊎ ((renamed pid old_pid s).active_syscall ≡ none)

exec-LinesMatch :
    (filter : List ℕ) (pid : ℕ) (changed follow enabled : Bool) (t : Tracer)
    → LinesMatch filter t
    → (enabled ≡ true) ⊎ (t.active_syscall ≡ none)
    → UnlessFailed
        (LinesMatch filter)
        (told_exec_or_none filter pid changed follow (closed_exec enabled filter pid t))
exec-LinesMatch filter pid changed follow true t h u =
    closed_exec-LinesMatch filter pid changed follow (check_resumed_syscall filter pid t)
      (check_resumed-Writable filter pid t h)
exec-LinesMatch filter pid changed follow false t h (inl p) = absurd cc
exec-LinesMatch filter pid changed follow false t h (inr p) =
    told_exec-LinesMatch filter pid changed follow t (h.0, h.1 ∙ ap is_some p, refl)

new_execution_context-LinesMatch :
    (filter : List ℕ) (pid : ℕ) (old_pid : Option ℕ) (follow : Bool) (s : Tracer)
    → LinesMatch filter s
    → Undisturbed filter pid old_pid s
    → UnlessFailed (LinesMatch filter) (new_execution_context filter pid old_pid follow s)
unfolding new_execution_context
new_execution_context-LinesMatch filter pid old_pid follow s h u =
    exec-LinesMatch filter pid (is_some old_pid) follow
      (is_enabled filter (current_syscall pid (renamed pid old_pid s))) (renamed pid old_pid s)
      (update_tracee-LinesMatch filter pid old_pid s h) u

abbrev pub Allowed : List ℕ → Callback → Tracer → Type 0
Allowed filter (exec_of pid old_pid follow) s = Undisturbed filter pid old_pid s
Allowed filter c s = Unit

-- Whatever callback comes, every line of a system call is closed or marked as unfinished before
-- anything else is written, and none is closed that is not open: unless an assertion fails, and where a
-- process that runs a new program has its exec shown or finds no other line open.
pub run_callback-LinesMatch :
    (filter : List ℕ) (default_abi : ℕ) (c : Callback) (s : Tracer)
    → LinesMatch filter s
    → Allowed filter c s
    → UnlessFailed (LinesMatch filter) (run_callback filter default_abi c s)
unfolding run_callback
run_callback-LinesMatch filter abi (entry_of pid c r) s h a =
    syscall_entry-LinesMatch filter abi pid c r s h
run_callback-LinesMatch filter abi (exit_of pid c) s h a = syscall_exit-LinesMatch filter pid c s h
run_callback-LinesMatch filter abi (signal_of pid) s h a = signaled-LinesMatch filter pid s h
run_callback-LinesMatch filter abi (attach_of pid i) s h a = attached-LinesMatch filter pid i s h
run_callback-LinesMatch filter abi (end_of pid st x e l) s h a =
    exited-LinesMatch filter pid st x e l s h
run_callback-LinesMatch filter abi (stop_of pid n) s h a = stopped-LinesMatch filter pid n s h
run_callback-LinesMatch filter abi (vanish_of pid st x) s h a =
    disappeared-LinesMatch filter pid st x s h
run_callback-LinesMatch filter abi (exec_of pid old f) s h a =
    new_execution_context-LinesMatch filter pid old f s h a
run_callback-LinesMatch filter abi (child_of m p c x y) s h a =
    new_child-LinesMatch m filter p c x y s h
