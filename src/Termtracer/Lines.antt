-- ===== src/Termtracer/Lines.antt =====
-- The lines of the output: each that a system call opens is closed or marked as unfinished before
-- anything else is written.
use clues.Common.{
  ℕ, ◌≡◌, refl, ap, sym, ◌∙◌, arith, Bool, true, false, not, ◌&&◌, Option, none, some, is_some,
  List, [], ◌∷◌, if◌then◌else◌, Bool-cases, inl, inr,
}
use clues.Common.Maps.{find, erase}
use clues.Termtracer.{
  ShownCall, Tracer, Out, unfinished_mark, pid_mark, remaining, message, opened, resumed, closed,
  put_aside, call_in, resume_stored, of_pid, Message, write, is_enabled, line_head, start_new_line,
  store_unfinished, say, active_of, has_active_syscall, check_resumed_syscall,
}

-- The tracee whose system call has begun on the current line, the last piece of the output first.
abbrev pub open_line : List Out → Option ℕ
open_line [] = none
open_line (opened p n ∷ l) = some p
open_line (resumed p n ∷ l) = some p
open_line (unfinished_mark ∷ l) = none
open_line (closed ∷ l) = none
open_line (pid_mark p ∷ l) = open_line l
open_line (remaining p ∷ l) = open_line l
open_line (message m ∷ l) = open_line l

-- A piece that ends a line of a system call stands on one, and every other piece stands on none.
abbrev ends_call : Out → Bool
ends_call unfinished_mark = true
ends_call closed = true
ends_call o = false

abbrev same_bool : Bool → Bool → Bool
same_bool true b = b
same_bool false b = not b

abbrev pub well_formed : List Out → Bool
well_formed [] = true
well_formed (o ∷ l) = same_bool (ends_call o) (is_some (open_line l)) && well_formed l

abbrev pub enabled_in : List ℕ → Option (ℕ × ShownCall) → Bool
enabled_in filter none = true
enabled_in filter (some (p, c)) = is_enabled filter (some c)

-- The output is well formed, and a line is open just if a system call is active.
abbrev pub LinesMatch : List ℕ → Tracer → Type 0
LinesMatch filter s =
    (well_formed s.log ≡ true)
    × (is_some (open_line s.log) ≡ is_some s.active_syscall)
    × (enabled_in filter s.active_syscall ≡ true)

-- No line is open, and no call is active.
abbrev pub AtStart : Tracer → Type 0
AtStart s = (well_formed s.log ≡ true) × (open_line s.log ≡ none) × (s.active_syscall ≡ none)

-- A line is open, and no call is active: what comes next closes it.
abbrev pub InLine : Tracer → Type 0
InLine s =
    (well_formed s.log ≡ true) × (is_some (open_line s.log) ≡ true) × (s.active_syscall ≡ none)

pub AtStart-LinesMatch : (filter : List ℕ) (s : Tracer) → AtStart s → LinesMatch filter s
AtStart-LinesMatch filter s a =
    (a.0, ap is_some a.1 ∙ ap is_some (sym a.2), ap (enabled_in filter) a.2)

line_head-AtStart : (pid : ℕ) (s : Tracer) → AtStart s → AtStart (line_head pid s)
line_head-AtStart pid s a = ground arith

pub no_line : (o : Option ℕ) → is_some o ≡ false → o ≡ none
no_line none h = refl
no_line (some p) h = absurd cc

marked :
    (filter : List ℕ) (s : Tracer) (o : Option (ℕ × ShownCall))
    → s.active_syscall ≡ o
    → well_formed s.log ≡ true
    → is_some (open_line s.log) ≡ is_some o
    → enabled_in filter o ≡ true
    → AtStart (
        if is_enabled filter (call_in o)
        then write unfinished_mark (put_aside o s)
        else put_aside o s)
unfolding is_enabled
marked filter s none e w l h = (w, no_line (open_line s.log) l, e)
marked filter s (some (p, c)) e w l h = rw h (rw (w, l) refl, refl, refl)

pub start_new_line-AtStart :
    (filter : List ℕ) (pid : ℕ) (s : Tracer)
    → LinesMatch filter s
    → AtStart (start_new_line filter pid s)
unfolding start_new_line store_unfinished is_enabled
start_new_line-AtStart filter pid s h =
    line_head-AtStart pid
      (if is_enabled filter (call_in s.active_syscall)
        then write unfinished_mark (put_aside s.active_syscall s)
        else put_aside s.active_syscall s)
      (marked filter s s.active_syscall refl h.0 h.1 h.2)

pub say-AtStart :
    (filter : List ℕ) (pid : ℕ) (m : Message) (s : Tracer)
    → LinesMatch filter s
    → AtStart (say filter pid m s)
unfolding say
say-AtStart filter pid m s h =
    let a = start_new_line-AtStart filter pid s h in (rw (a.0, a.1) refl, a.1, a.2)

pub closed-AtStart : (s : Tracer) → InLine s → AtStart (write closed s)
closed-AtStart s a = (rw (a.0, a.1) refl, refl, a.2)

-- What holds of the state behind a call, if no assertion failed in it.
abbrev pub UnlessFailed : (Tracer → Type 0) → Option Tracer → Type 0
UnlessFailed P none = Unit {0}
UnlessFailed P (some t) = P t

-- A line is open, and no other tracee's call is active.
abbrev pub Writable : ℕ → Tracer → Type 0
Writable pid t =
    (well_formed t.log ≡ true)
    × (is_some (open_line t.log) ≡ true)
    × ((is_some t.active_syscall && not (has_active_syscall pid t)) ≡ false)

active-open :
    (pid : ℕ) (o : Option (ℕ × ShownCall)) (l : Option ℕ)
    → is_some l ≡ is_some o
    → is_some (of_pid pid o) ≡ true
    → (is_some l ≡ true) × ((is_some o && not (is_some (of_pid pid o))) ≡ false)
active-open pid none l e h = absurd cc
active-open pid (some (p, c)) l e h = (e, rw h refl)

pub active-Writable :
    (filter : List ℕ) (pid : ℕ) (s : Tracer)
    → LinesMatch filter s
    → has_active_syscall pid s ≡ true
    → Writable pid s
unfolding active_of
active-Writable filter pid s h a =
    let k = active-open pid s.active_syscall (open_line s.log) h.1 a in (h.0, k.0, k.1)

pub resume_stored-InLine :
    (filter : List ℕ) (pid : ℕ) (o : Option ShownCall) (s : Tracer)
    → LinesMatch filter s
    → UnlessFailed InLine (resume_stored filter pid o s)
resume_stored-InLine filter pid none s h = tt
resume_stored-InLine filter pid (some c) s h =
    let a =
      start_new_line-AtStart filter pid
        (record s { unfinished_syscalls = erase pid s.unfinished_syscalls }) h in
    (rw (a.0, a.1) refl, refl, a.2)

pub check_resumed-InLine :
    (filter : List ℕ) (pid : ℕ) (s : Tracer)
    → LinesMatch filter s
    → has_active_syscall pid s ≡ false
    → UnlessFailed InLine (check_resumed_syscall filter pid s)
unfolding check_resumed_syscall
check_resumed-InLine filter pid s h a =
    rw a (resume_stored-InLine filter pid (find pid s.unfinished_syscalls) s h)

pub UnlessFailed-map :
    {P Q : Tracer → Type 0} (o : Option Tracer)
    → ((t : Tracer) → P t → Q t)
    → UnlessFailed P o
    → UnlessFailed Q o
UnlessFailed-map none f h = tt
UnlessFailed-map (some t) f h = f t h

InLine-Writable : (pid : ℕ) (t : Tracer) → InLine t → Writable pid t
InLine-Writable pid t h = (h.0, h.1, rw h.2 refl)

check_resumed-active :
    (filter : List ℕ) (pid : ℕ) (s : Tracer)
    → LinesMatch filter s
    → has_active_syscall pid s ≡ true
    → UnlessFailed (Writable pid) (check_resumed_syscall filter pid s)
unfolding check_resumed_syscall
check_resumed-active filter pid s h a = rw a (active-Writable filter pid s h a)

pub check_resumed-Writable :
    (filter : List ℕ) (pid : ℕ) (s : Tracer)
    → LinesMatch filter s
    → UnlessFailed (Writable pid) (check_resumed_syscall filter pid s)
check_resumed-Writable filter pid s h = elim (Bool-cases (has_active_syscall pid s)) [
  | inl a ↦ check_resumed-active filter pid s h a
  | inr a ↦
      UnlessFailed-map (check_resumed_syscall filter pid s) (InLine-Writable pid)
        (check_resumed-InLine filter pid s h a)
]
