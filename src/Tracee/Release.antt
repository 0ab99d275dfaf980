-- ===== src/Tracee/Release.antt =====
-- Detaching from a tracee, and the arguments of a process: doDetach, detach and updateCmdLine of
-- src/Tracee.cxx.
use clues.Common.{
  suc, ◌&&◌, not, is_some, ℕ, ◌≡◌, ◌≢◌, refl, Bool, true, false, none, List, [], ◌∷◌, ◌++◌, ◌==◌,
  if◌then◌else◌, arith, Bool-cases, inl, inr, ◌⊎◌, All, ap, sym, ◌∙◌,
}
use mathlib.Core.List.{append-nil, append_assoc}
use clues.Outcome.{Outcome, returns, throws, Response, ok, fails, final, api_error, errno_search}
use clues.Tracee.State.{
  dead, detached, detach_sent, is_gone, is_child, no_flags, cleanup_child, change_state, set_state,
  enter_state, Local, Env,
}
use clues.Tracee.Detach.{do_detach, detach, handle_error, split_args}

-- How a stopped tracee must look after the answer to PTRACE_DETACH: detached; dead, when there is no
-- such process; and otherwise the error goes on, and only the process id is forgotten.
abbrev pub Detached : Response (Unit {0}) → Local → Outcome Local (Unit {0}) → Type 0
Detached (ok u) s r =
    (r ≡ returns tt (final r))
    × ((final r).tracee.state ≡ detached)
    × ((final r).tracee.pid ≡ none)
    × ((final r).tracee.flags ≡ no_flags)
Detached (fails e) s r =
    if e == errno_search
    then (r ≡ returns tt (final r))
      × ((final r).tracee.state ≡ dead)
      × ((final r).tracee.pid ≡ none)
      × ((final r).tracee.flags ≡ no_flags)
    else (r ≡ throws (api_error e) (final r))
      × ((final r).tracee.state ≡ s.tracee.state)
      × ((final r).tracee.pid ≡ none)
      × ((final r).tracee.flags ≡ s.tracee.flags)

-- `changeState(DEAD)` of a tracee that is no child.
change_state-dead :
    (env : Env) (s : Local)
    → is_child s.tracee.kind ≡ false
    → change_state env dead s ≡ returns tt (record s { tracee = set_state dead s.tracee })
unfolding change_state set_state
change_state-dead env s c = ground arith

change_state-detached :
    (env : Env) (s : Local)
    → change_state env detached s
      ≡ returns tt (record s { tracee = set_state detached (enter_state detached s.tracee) })
unfolding change_state set_state
change_state-detached env s = refl

handle_error-search :
    (env : Env) (n : ℕ) (s : Local)
    → is_child s.tracee.kind ≡ false
    → (n == errno_search) ≡ true
    → handle_error env n s ≡ returns tt (record s { tracee = set_state dead s.tracee })
unfolding handle_error
handle_error-search env n s c h = rw h (change_state-dead env s c)

handle_error-other :
    (env : Env) (n : ℕ) (s : Local)
    → (n == errno_search) ≡ false
    → handle_error env n s
      ≡ throws (api_error n) (record s { tracee = record (s.tracee) { pid = none } })
unfolding handle_error
handle_error-other env n s h = rw h refl

-- A stopped tracee that is no child is detached as the kernel's answer has it: an error other than
-- ESRCH goes on.
pub do_detach_lem :
    (env : Env) (answer : Response (Unit {0})) (s : Local)
    → is_child s.tracee.kind ≡ false
    → env.detach s.clock s.tracee.pid ≡ answer
    → Detached answer s (do_detach env s)
unfolding do_detach set_state enter_state
do_detach_lem env (ok u) s c e = grind (arith, change_state-detached)
do_detach_lem env (fails n) s c e = elim (Bool-cases (n == errno_search)) [
  | inl p ↦ grind (arith, handle_error-search)
  | inr p ↦ grind (arith, handle_error-other)
]

-- A byte other than zero.
abbrev pub NonZero : ℕ → Type 0
NonZero b = b ≢ 0

-- The content of a cmdline file: each argument ends in a zero byte.
abbrev pub cmdline_of : List (List ℕ) → List ℕ
cmdline_of [] = []
cmdline_of (a ∷ args) = a ++ 0 ∷ cmdline_of args

-- `split_args` is a left inverse.
split_arg :
    (arg a bytes : List ℕ)
    → All NonZero a
    → split_args arg (a ++ 0 ∷ bytes) ≡ (arg ++ a) ∷ split_args [] bytes
unfolding split_args
split_arg arg [] bytes h = ap (λ l. l ∷ split_args [] bytes) (sym (append-nil arg))
split_arg arg (b ∷ a) bytes h =
    ground (arith, split_arg (arg ++ b ∷ []) a bytes h.1, append_assoc arg (b ∷ []) a)

-- The arguments of a process are read back from the file that the kernel makes of them, when no
-- argument holds a zero byte. Empty arguments are kept.
pub split_args-cmdline_of :
    (args : List (List ℕ)) → All (All NonZero) args → split_args [] (cmdline_of args) ≡ args
unfolding split_args
split_args-cmdline_of [] h = refl
split_args-cmdline_of (a ∷ args) h =
    split_arg [] a (cmdline_of args) h.0 ∙ ap (λ l. a ∷ l) (split_args-cmdline_of args h.1)

-- What `detach` answers is true of the tracee, whatever the kernel answers. True: it had no process id
-- or was dead or detached already and nothing has been done, or its id is forgotten, and it has been
-- found dead, or the kernel has answered one PTRACE_DETACH for it and it is in the state of a detached
-- tracee. False: it is marked for its next stop, with one PTRACE_INTERRUPT unless a stop is due anyway,
-- or it has been found dead. An exception leaves no process id behind, or comes from the clean-up of a
-- child.
abbrev pub Released : Local → Outcome Local Bool → Type 0
Released s (returns true t) =
    (((is_some s.tracee.pid && not (is_gone s.tracee.state)) ≡ false) × (t ≡ s))
    ⊎ ((t.tracee.pid ≡ none)
        × ((t.tracee.state ≡ dead)
            ⊎ ((t.tracee.state ≡ detached)
                × (t.clock ≡ suc s.clock)
                × (t.log ≡ s.log ++ detach_sent s.tracee.pid ∷ []))))
Released s (returns false t) =
    ((t.tracee.flags.detach_at_next_stop ≡ true)
      × (t.clock ≡ (if s.tracee.flags.wait_for_attach_stop then s.clock else suc s.clock)))
    ⊎ (t.tracee.state ≡ dead)
Released s (throws e t) = (t.tracee.pid ≡ none) ⊎ (is_child t.tracee.kind ≡ true)

pub detach-Released : (env : Env) (s : Local) → Released s (detach env s)
unfolding detach do_detach handle_error change_state cleanup_child set_state enter_state
detach-Released env s = ground (arith)
