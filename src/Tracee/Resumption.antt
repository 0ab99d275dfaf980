-- ===== src/Tracee/Resumption.antt =====
-- Interrupted system calls and their resumption: handleSystemCallExit and handleSystemCallEntry of
-- src/Tracee.cxx.
use clues.Common.{
  ℕ, ◌+◌, ◌%◌, ◌≡◌, refl, Bool, true, false, none, some, [], ◌∷◌, ◌++◌, if◌then◌else◌, arith, ap,
  subst, ◌∙◌,
}
use clues.Outcome.{returns, final}
use clues.Abi.{Op, SystemCallInfo, verify_arch}
use clues.Calls.{SystemCall, set_exit_info}
use clues.Tracee.State.{Local, Env, syscall_entry, syscall_exit, no_status}
use clues.Tracee.SystemCalls.{
  handle_system_call_entry, handle_system_call_exit, resume, kernel_error, is_sigreturn,
  nr_restart_syscall, size_mod,
}
use clues.Tracee.Entries.{
  db_get-interrupted, db_get-log, db_get-id, db_get-ctr, answer_of, resume-id, resume-ctr,
  resume-log, resume-interrupted, EntersWell, looked_up, entry-current, reported-log,
  abi_changed_at, resumed_at, entry-reported,
}

-- What an entry shows, where `c` is its system call.
abbrev pub Reported : Env → SystemCallInfo → Local → ℕ → Bool → Bool → Type 0
Reported env info s c b d =
    let r = final (handle_system_call_entry env info s) in
    (handle_system_call_entry env info s ≡ returns tt r)
    × (r.tracee.current_syscall ≡ some c)
    × (r.tracee.syscall_ctr ≡ (s.tracee.syscall_ctr + 1) % size_mod)
    × (r.log
        ≡ s.log
          ++ syscall_entry s.tracee.id (r.heap c).nr
              (record no_status { abi_changed = b; resumed = d })
            ∷ [])

entry-Reported :
    (env : Env) (info : SystemCallInfo) (s : Local) (c : ℕ)
    → verify_arch env.build info ≡ true
    → EntersWell env info
    → (final (resume env info (looked_up env info s))).tracee.current_syscall ≡ some c
    → Reported env info s c (abi_changed_at env info s) (resumed_at env info s)
entry-Reported env info s c v w e = rw (entry-reported env info s c v w e) (
  refl,
  e,
  ap (λ n. (n + 1) % size_mod) (resume-ctr env info t ∙ db_get-ctr env info s),
  reported-log env info (abi_changed_at env info s) (resumed_at env info s) c
      (final (resume env info t)) s.log s.tracee.id (resume-log env info t ∙ db_get-log env info s)
      (resume-id env info t ∙ db_get-id env info s),
)
  where
    t : Local
    t = looked_up env info s

-- An entry stop whose ABI the library can decode, and in which no item and no class throws, is counted, and reported once, with the number of
-- the current system call, however the stop relates to interrupted system calls. No exit is reported.
pub handle_system_call_entry_lem :
    (env : Env) (info : SystemCallInfo) (s : Local)
    → verify_arch env.build info ≡ true
    → EntersWell env info
    → (c : ℕ) × (b : Bool) × (d : Bool) × Reported env info s c b d
handle_system_call_entry_lem env info s v w =
    let found = entry-current env info s in
    (
      found.0,
      abi_changed_at env info s,
      resumed_at env info s,
      entry-Reported env info s found.0 v w found.1,
    )

-- The call at the end of an exit, before it is looked at.
abbrev pub exited_call : Env → Op → ℕ → Local → SystemCall
exited_call env op r s =
    (set_exit_info (env.hooks (s.heap r)) op (s.heap r) s.process.fd_info_map).0

-- An exit stop in which setExitInfo throws nothing, of a call that is no sigreturn, is reported once, as an interruption just when the call ended
-- with an error code of the kernel; no current system call is left, and the call is the interrupted
-- one then.
pub handle_system_call_exit_lem :
    (env : Env) (op : Op) (r : ℕ) (s : Local)
    → s.tracee.current_syscall ≡ some r
    → (set_exit_info (env.hooks (s.heap r)) op (s.heap r) s.process.fd_info_map).2 ≡ none
    → is_sigreturn (exited_call env op r s).nr ≡ false
    → let u = final (handle_system_call_exit env op s) in
      let c = exited_call env op r s in
      (handle_system_call_exit env op s ≡ returns tt u)
      × (u.tracee.current_syscall ≡ none)
      × (u.tracee.interrupted_syscall
          ≡ (if kernel_error c.error then some r else s.tracee.interrupted_syscall))
      × (u.log
          ≡ s.log
            ++ syscall_exit s.tracee.id c.nr
                (record no_status { interrupted = kernel_error c.error })
              ∷ [])
      × (u.tracee.id ≡ s.tracee.id)
unfolding handle_system_call_exit
handle_system_call_exit_lem env op r s e f g = grind (arith)

restart-looked_up :
    (env : Env) (info : SystemCallInfo) (r : ℕ) (s : Local)
    → s.tracee.interrupted_syscall ≡ some r
    → info.generic ≡ nr_restart_syscall
    → let u = resume env info (looked_up env info s) in
      (answer_of u ≡ true)
      × ((final u).tracee.current_syscall ≡ some r)
      × ((final u).tracee.interrupted_syscall ≡ none)
restart-looked_up env info r s e f =
    grind
      (arith, resume-interrupted env info (looked_up env info s) f, db_get-interrupted env info s)

-- A restart_syscall of a supported architecture after an interrupted system call, in whose entry no item
-- and no class throws, is counted and reported once, as the resumption of that call: the current system
-- call is the interrupted one, which is forgotten as such.
pub restart_resumes_interrupted :
    (env : Env) (info : SystemCallInfo) (r : ℕ) (s : Local)
    → s.tracee.interrupted_syscall ≡ some r
    → info.generic ≡ nr_restart_syscall
    → verify_arch env.build info ≡ true
    → EntersWell env info
    → Reported env info s r (abi_changed_at env info s) true
      × ((final (handle_system_call_entry env info s)).tracee.interrupted_syscall ≡ none)
restart_resumes_interrupted env info r s e f v w =
    let found = restart-looked_up env info r s e f in
    (
      subst (Reported env info s r (abi_changed_at env info s)) found.0
          (entry-Reported env info s r v w found.1),
      rw (entry-reported env info s r v w found.1) found.2,
    )
