-- ===== src/Termtracer/Callbacks.antt =====
-- The output through all callbacks of the front end.
use clues.Common.{
  ℕ, suc, ◌≡◌, refl, arith, Bool, true, false, not, ◌&&◌, ◌==◌, Option, none, some, is_some, List,
  if◌then◌else◌, Bool-cases, inl, inr,
}
use clues.Common.Maps.{find, insert}
use clues.Termtracer.{
  ShownCall, Tracer, Message, message, opened, closed, write, is_enabled, start_new_line, say,
  active_of, of_pid, has_active_syscall, current_syscall, or_else, check_resumed_syscall,
  resume_stored, abi_changed, resuming_interrupted, abi_reported, syscall_entry, syscall_exit,
  closing, preempting, aborted, abort_syscall, cleanup_tracee, told_exit, note_main, ended, exited,
  vanished, disappeared, introduced, attached, signaled, stopped, FollowChildMode, ask, asked,
  follows, new_child_process, has_exited, exec_failed, was_killed, lost_to_exit, has_disappeared,
  follow_question, in_stop, signal_info, attached_thread, automatically_attached, unknown_tracee,
}
use clues.Termtracer.Lines.{
  enabled_in, LinesMatch, AtStart, InLine, Writable, UnlessFailed, AtStart-LinesMatch,
  start_new_line-AtStart, say-AtStart, closed-AtStart, resume_stored-InLine, check_resumed-Writable,
  active-Writable,
}

pub say-LinesMatch :
    (filter : List ℕ) (pid : ℕ) (m : Message) (s : Tracer)
    → LinesMatch filter s
    → LinesMatch filter (say filter pid m s)
say-LinesMatch filter pid m s h =
    AtStart-LinesMatch filter (say filter pid m s) (say-AtStart filter pid m s h)

message-AtStart : (m : Message) (s : Tracer) → AtStart s → AtStart (write (message m) s)
message-AtStart m s a = (rw (a.0, a.1) refl, a.1, a.2)

pub if-holds : (P : Tracer → Type 0) (b : Bool) (x y : Tracer) → P x → P y → P (if b then x else y)
if-holds P true x y p q = p
if-holds P false x y p q = q

opened-LinesMatch :
    (filter : List ℕ) (pid : ℕ) (c : ShownCall) (s : Tracer)
    → is_enabled filter (some c) ≡ true
    → AtStart s
    → LinesMatch filter (record (write (opened pid c.nr) s) { active_syscall = some (pid, c) })
opened-LinesMatch filter pid c s e a = (rw (a.0, a.1) refl, refl, e)

pub syscall_entry-LinesMatch :
    (filter : List ℕ) (default_abi pid : ℕ) (c : ShownCall) (r : Bool) (s : Tracer)
    → LinesMatch filter s
    → LinesMatch filter (syscall_entry filter default_abi pid c r s)
unfolding syscall_entry
syscall_entry-LinesMatch filter default_abi pid c r s h =
    elim (Bool-cases (is_enabled filter (some c))) [
      | inl e ↦
          let told = if abi_reported default_abi c s then say filter pid abi_changed s else s in
          let head = start_new_line filter pid (record told { last_abi = some c.abi }) in
          let quiet : LinesMatch filter told =
            if-holds (LinesMatch filter) (abi_reported default_abi c s)
              (say filter pid abi_changed s) s (say-LinesMatch filter pid abi_changed s h) h in
          let first =
            start_new_line-AtStart filter pid (record told { last_abi = some c.abi }) quiet in
          rw e (
            opened-LinesMatch filter pid c
              (if r then write (message resuming_interrupted) head else head) e
              (if-holds AtStart r (write (message resuming_interrupted) head) head
                (message-AtStart resuming_interrupted head first) first))
      | inr e ↦ rw e h
    ]

closing-LinesMatch :
    (filter : List ℕ) (pid : ℕ) (o : Option Tracer)
    → UnlessFailed (Writable pid) o
    → UnlessFailed (LinesMatch filter) (closing (preempting filter pid o))
closing-LinesMatch filter pid none h = tt
closing-LinesMatch filter pid (some s) h = rw h.2 (rw (h.0, h.1) refl, refl, refl)

pub syscall_exit-LinesMatch :
    (filter : List ℕ) (pid : ℕ) (c : ShownCall) (s : Tracer)
    → LinesMatch filter s
    → UnlessFailed (LinesMatch filter) (syscall_exit filter pid c s)
unfolding syscall_exit
syscall_exit-LinesMatch filter pid c s h = elim (Bool-cases (c.is_exec && not c.failed)) [
  | inl p ↦ rw p h
  | inr p ↦ elim (Bool-cases (is_enabled filter (some c))) [
    | inl e ↦
        rw (p, e)
          (closing-LinesMatch filter pid (check_resumed_syscall filter pid s)
            (check_resumed-Writable filter pid s h))
    | inr e ↦ rw (p, e) h
  ]
]

own-enabled :
    (filter : List ℕ) (pid : ℕ) (o : Option (ℕ × ShownCall)) (u : Option ShownCall)
    → enabled_in filter o ≡ true
    → is_some (of_pid pid o) ≡ true
    → is_enabled filter (or_else (of_pid pid o) u) ≡ true
own-enabled filter pid none u h a = absurd cc
own-enabled filter pid (some (p, c)) u h a = elim (Bool-cases (p == pid)) [
  | inl e ↦ rw e h
  | inr e ↦ absurd (ground (arith, a, e))
]

-- The current call of a tracee with an active call is this one.
current-enabled :
    (filter : List ℕ) (pid : ℕ) (s : Tracer)
    → LinesMatch filter s
    → has_active_syscall pid s ≡ true
    → is_enabled filter (current_syscall pid s) ≡ true
unfolding current_syscall active_of
current-enabled filter pid s h a =
    own-enabled filter pid s.active_syscall (find pid s.unfinished_syscalls) h.2 a

aborted-LinesMatch :
    (filter : List ℕ) (o : Option Tracer)
    → UnlessFailed InLine o
    → UnlessFailed (LinesMatch filter) (aborted true o)
aborted-LinesMatch filter none h = tt
aborted-LinesMatch filter (some t) h =
    AtStart-LinesMatch filter (write closed t) (closed-AtStart t h)

abort_syscall-LinesMatch :
    (filter : List ℕ) (pid : ℕ) (s : Tracer)
    → LinesMatch filter s
    → UnlessFailed (LinesMatch filter) (abort_syscall filter pid s)
unfolding abort_syscall
abort_syscall-LinesMatch filter pid s h = elim (Bool-cases (has_active_syscall pid s)) [
  | inl a ↦
      let w = active-Writable filter pid s h a in
      rw (a, current-enabled filter pid s h a) (rw (w.0, w.1) refl, refl, refl)
  | inr a ↦ elim (Bool-cases (is_enabled filter (current_syscall pid s))) [
    | inl e ↦
        rw (a, e)
          (aborted-LinesMatch filter (resume_stored filter pid (find pid s.unfinished_syscalls) s)
            (resume_stored-InLine filter pid (find pid s.unfinished_syscalls) s h))
    | inr e ↦ rw (a, e) h
  ]
]

-- What cleanupTracee keeps, where no call is active.
cleanup-AtStart : (pid : ℕ) (s : Tracer) → AtStart s → AtStart (cleanup_tracee pid s)
unfolding cleanup_tracee active_of
cleanup-AtStart pid s a = (a.0, a.1, rw a.2 refl)

told_exit-AtStart :
    (filter : List ℕ) (pid : ℕ) (exit : Bool) (s : Tracer)
    → LinesMatch filter s
    → AtStart (told_exit filter pid exit s)
told_exit-AtStart filter pid true s h =
    if-holds AtStart s.seen_initial_exec (say filter pid has_exited s)
      (say filter pid exec_failed (say filter pid has_exited s))
      (say-AtStart filter pid has_exited s h)
      (say-AtStart filter pid exec_failed (say filter pid has_exited s)
        (say-LinesMatch filter pid has_exited s h))
told_exit-AtStart filter pid false s h = say-AtStart filter pid was_killed s h

ended-LinesMatch :
    (filter : List ℕ) (pid status : ℕ) (exit lost : Bool) (o : Option Tracer)
    → UnlessFailed (LinesMatch filter) o
    → UnlessFailed (LinesMatch filter) (ended filter pid status exit lost o)
ended-LinesMatch filter pid status exit lost none h = tt
ended-LinesMatch filter pid status exit true (some s) h =
    AtStart-LinesMatch filter
      (cleanup_tracee pid
        (note_main pid status (told_exit filter pid exit (say filter pid lost_to_exit s))))
      (cleanup-AtStart pid
        (note_main pid status (told_exit filter pid exit (say filter pid lost_to_exit s)))
        (told_exit-AtStart filter pid exit (say filter pid lost_to_exit s)
          (say-LinesMatch filter pid lost_to_exit s h)))
ended-LinesMatch filter pid status exit false (some s) h =
    AtStart-LinesMatch filter
      (cleanup_tracee pid (note_main pid status (told_exit filter pid exit s)))
      (cleanup-AtStart pid (note_main pid status (told_exit filter pid exit s))
        (told_exit-AtStart filter pid exit s h))

pub exited-LinesMatch :
    (filter : List ℕ) (pid status : ℕ) (exit in_entry lost : Bool) (s : Tracer)
    → LinesMatch filter s
    → UnlessFailed (LinesMatch filter) (exited filter pid status exit in_entry lost s)
unfolding exited
exited-LinesMatch filter pid status exit true lost s h =
    ended-LinesMatch filter pid status exit lost (abort_syscall filter pid s)
      (abort_syscall-LinesMatch filter pid s h)
exited-LinesMatch filter pid status exit false lost s h =
    ended-LinesMatch filter pid status exit lost (some s) h

vanished-LinesMatch :
    (filter : List ℕ) (pid status : ℕ) (exit : Bool) (o : Option Tracer)
    → UnlessFailed (LinesMatch filter) o
    → UnlessFailed (LinesMatch filter) (vanished filter pid status exit o)
vanished-LinesMatch filter pid status exit none h = tt
vanished-LinesMatch filter pid status exit (some s) h =
    let first = say filter pid has_disappeared s in
    let m = if exit then has_exited else was_killed in
    AtStart-LinesMatch filter (cleanup_tracee pid (note_main pid status (say filter pid m first))) (
      cleanup-AtStart pid (note_main pid status (say filter pid m first))
        (say-AtStart filter pid m first (say-LinesMatch filter pid has_disappeared s h)))

pub disappeared-LinesMatch :
    (filter : List ℕ) (pid status : ℕ) (exit : Bool) (s : Tracer)
    → LinesMatch filter s
    → UnlessFailed (LinesMatch filter) (disappeared filter pid status exit s)
unfolding disappeared
disappeared-LinesMatch filter pid status exit s h =
    vanished-LinesMatch filter pid status exit (abort_syscall filter pid s)
      (abort_syscall-LinesMatch filter pid s h)

introduced-LinesMatch :
    (filter : List ℕ) (pid : ℕ) (o : Option ℕ) (s : Tracer)
    → LinesMatch filter s
    → LinesMatch filter (introduced filter pid o s)
introduced-LinesMatch filter pid none s h = say-LinesMatch filter pid unknown_tracee s h
introduced-LinesMatch filter pid (some parent) s h =
    say-LinesMatch filter pid automatically_attached s h

pub attached-LinesMatch :
    (filter : List ℕ) (pid : ℕ) (initially : Bool) (s : Tracer)
    → LinesMatch filter s
    → LinesMatch filter (attached filter pid initially s)
unfolding attached
attached-LinesMatch filter pid initially s h =
    let counted = record s { num_tracees = suc s.num_tracees } in
    if-holds (LinesMatch filter) (s.num_tracees == 0) counted
      (if initially
        then say filter pid attached_thread counted
        else introduced filter pid (find pid s.new_tracees) counted)
      h
      (if-holds (LinesMatch filter) initially (say filter pid attached_thread counted)
        (introduced filter pid (find pid s.new_tracees) counted)
        (say-LinesMatch filter pid attached_thread counted h)
        (introduced-LinesMatch filter pid (find pid s.new_tracees) counted h))

pub stopped-LinesMatch :
    (filter : List ℕ) (pid ctr : ℕ) (s : Tracer)
    → LinesMatch filter s
    → LinesMatch filter (stopped filter pid ctr s)
unfolding stopped
stopped-LinesMatch filter pid ctr s h =
    if-holds (LinesMatch filter) (ctr == 0) (say filter pid in_stop s) s
      (say-LinesMatch filter pid in_stop s h) h

asked-LinesMatch :
    (mode : FollowChildMode) (filter : List ℕ) (parent : ℕ) (s : Tracer)
    → LinesMatch filter s
    → LinesMatch filter (asked mode filter parent s)
asked-LinesMatch ask filter parent s h = say-LinesMatch filter parent follow_question s h
asked-LinesMatch _ filter parent s h = h

pub new_child-LinesMatch :
    (mode : FollowChildMode) (filter : List ℕ) (parent child : ℕ) (answer cloned : Bool)
    (s : Tracer)
    → LinesMatch filter s
    → LinesMatch filter (new_child_process mode filter parent child answer cloned s)
unfolding new_child_process
new_child-LinesMatch mode filter parent child answer cloned s h =
    let t = asked mode filter parent s in
    if-holds (LinesMatch filter) (follows mode answer cloned)
      (record t { new_tracees = insert child parent t.new_tracees }) t
      (asked-LinesMatch mode filter parent s h) (asked-LinesMatch mode filter parent s h)

pub signaled-LinesMatch :
    (filter : List ℕ) (pid : ℕ) (s : Tracer)
    → LinesMatch filter s
    → LinesMatch filter (signaled filter pid s)
unfolding signaled
signaled-LinesMatch filter pid s h = say-LinesMatch filter pid signal_info s h
