-- ===== src/Termtracer/Assertions.antt =====
-- Where the assertion of checkResumedSyscall fails.
use clues.Common.{
  ℕ, ◌≡◌, ◌↔◌, refl, arith, Bool, true, not, ◌&&◌, Option, none, some, is_some, List, if◌then◌else◌,
  Bool-cases, inl, inr,
}
use clues.Common.Maps.{find}
use clues.Termtracer.{
  ShownCall, Tracer, is_enabled, active_of, or_else, current_syscall, check_resumed_syscall,
  resume_stored, syscall_exit, closing, preempting,
}

-- A call is shown at its exit if the filter lets it through and it is not an exec that has succeeded.
abbrev pub shown : List ℕ → ShownCall → Bool
shown filter c = not (c.is_exec && not c.failed) && is_enabled filter (some c)

put_aside-none :
    (filter : List ℕ) (pid : ℕ) (s : Tracer) (o u : Option ShownCall)
    → ((if is_some o then some s else resume_stored filter pid u s) ≡ none) ↔ (or_else o u ≡ none)
put_aside-none filter pid s none none = ((λ e. refl), (λ e. refl))
put_aside-none filter pid s none (some c) = ((λ e. absurd cc), (λ e. absurd cc))
put_aside-none filter pid s (some c) u = ((λ e. absurd cc), (λ e. absurd cc))

check_resumed-none :
    (filter : List ℕ) (pid : ℕ) (s : Tracer)
    → (check_resumed_syscall filter pid s ≡ none) ↔ (current_syscall pid s ≡ none)
unfolding check_resumed_syscall current_syscall
check_resumed-none filter pid s =
    put_aside-none filter pid s (active_of pid s) (find pid s.unfinished_syscalls)

closing-none :
    (filter : List ℕ) (pid : ℕ) (o : Option Tracer)
    → (closing (preempting filter pid o) ≡ none) ↔ (o ≡ none)
closing-none filter pid none = ((λ e. refl), (λ e. refl))
closing-none filter pid (some s) = ((λ e. absurd cc), (λ e. absurd cc))

-- The assertion of checkResumedSyscall fails at an exit just if the call is shown there and no call of
-- the tracee is known, active or unfinished.
pub syscall_exit-none :
    (filter : List ℕ) (pid : ℕ) (c : ShownCall) (s : Tracer)
    → (syscall_exit filter pid c s ≡ none)
      ↔ ((shown filter c ≡ true) × (current_syscall pid s ≡ none))
unfolding syscall_exit
syscall_exit-none filter pid c s = elim (Bool-cases (c.is_exec && not c.failed)) [
  | inl p ↦ rw p ((λ e. absurd cc), (λ e. absurd (ground (arith, e.0))))
  | inr p ↦ elim (Bool-cases (is_enabled filter (some c))) [
    | inl e ↦
        let k = closing-none filter pid (check_resumed_syscall filter pid s) in
        let r = check_resumed-none filter pid s in
        rw (p, e) ((λ h. (refl, r.0 (k.0 h))), (λ h. k.1 (r.1 h.1)))
    | inr e ↦ rw (p, e) ((λ h. absurd cc), (λ h. absurd (ground (arith, h.0))))
  ]
]
