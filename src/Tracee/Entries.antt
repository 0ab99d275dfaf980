-- ===== src/Tracee/Entries.antt =====
-- The steps of a system call entry: handleSystemCallEntry of src/Tracee.cxx.
use clues.Common.{
  ℕ, ◌+◌, ◌%◌, ◌≡◌, refl, Bool, true, false, ◌&&◌, not, Option, none, some, List, [], ◌∷◌, ◌++◌,
  is_some, arith, Option-cases, inl, inr, ap, ◌∙◌,
}
use clues.Common.Maps
use clues.Outcome.{Outcome, returns, throws, final}
use clues.Abi.{SystemCallInfo, verify_arch, Abi, unknown, abi_eq}
use clues.Calls.{SystemCall, set_entry_info}
use clues.Tracee.State.{Local, Env, Effect, syscall_entry, no_status, StatusFlags}
use clues.Tracee.SystemCalls.{
  handle_system_call_entry, db_get, resume, nr_restart_syscall, size_mod, store,
}
use clues.Tracee.Safety.{place, db_get-returns, resume-known}

-- The state that a database lookup leaves: only the heap and the database may grow.
pub db_get-interrupted :
    (env : Env) (info : SystemCallInfo) (s : Local)
    → (final (db_get env info s)).tracee.interrupted_syscall ≡ s.tracee.interrupted_syscall
unfolding db_get
db_get-interrupted env info s = ground arith

pub db_get-log :
    (env : Env) (info : SystemCallInfo) (s : Local) → (final (db_get env info s)).log ≡ s.log
unfolding db_get
db_get-log env info s = ground arith

pub db_get-id :
    (env : Env) (info : SystemCallInfo) (s : Local)
    → (final (db_get env info s)).tracee.id ≡ s.tracee.id
unfolding db_get
db_get-id env info s = ground arith

pub db_get-ctr :
    (env : Env) (info : SystemCallInfo) (s : Local)
    → (final (db_get env info s)).tracee.syscall_ctr ≡ s.tracee.syscall_ctr
unfolding db_get
db_get-ctr env info s = ground arith

-- `resume` always returns, and keeps what the notification is made of.
abbrev pub answer_of : Outcome Local Bool → Bool
answer_of (returns b s) = b
answer_of (throws e s) = false

pub resume-returns :
    (env : Env) (info : SystemCallInfo) (s : Local)
    → resume env info s ≡ returns (answer_of (resume env info s)) (final (resume env info s))
unfolding resume
resume-returns env info s = ground arith

pub resume-id :
    (env : Env) (info : SystemCallInfo) (s : Local)
    → (final (resume env info s)).tracee.id ≡ s.tracee.id
unfolding resume
resume-id env info s = ground arith

pub resume-ctr :
    (env : Env) (info : SystemCallInfo) (s : Local)
    → (final (resume env info s)).tracee.syscall_ctr ≡ s.tracee.syscall_ctr
unfolding resume
resume-ctr env info s = ground arith

pub resume-log :
    (env : Env) (info : SystemCallInfo) (s : Local) → (final (resume env info s)).log ≡ s.log
unfolding resume
resume-log env info s = ground arith

pub resume-interrupted :
    (env : Env) (info : SystemCallInfo) (s : Local)
    → info.generic ≡ nr_restart_syscall
    → is_some s.tracee.interrupted_syscall ≡ true
    → resume env info s
      ≡ returns true (record s {
        tracee = record (s.tracee) {
          current_syscall = s.tracee.interrupted_syscall;
          interrupted_syscall = none;
        };
      })
unfolding resume
resume-interrupted env info s h i = ground arith

-- The items and the classes of system calls throw nothing at an entry, or at an exit.
abbrev pub EntersWell : Env → SystemCallInfo → Type 0
EntersWell env info = (c : SystemCall) → (set_entry_info (env.hooks c) info c).1 ≡ none

-- The flag of an ABI change, for the ABI at the last entry of the same object.
abbrev pub abi_change : Abi → Abi → Bool
abi_change last new = not (abi_eq last unknown) && not (abi_eq last new)

-- The state between the lookup of an entry's system call and the test for a resumption.
abbrev pub looked_up : Env → SystemCallInfo → Local → Local
looked_up env info s =
    let m = final (db_get env info s) in
    record m {
      tracee = record (m.tracee) {
        current_syscall = some (place (Maps.find info.generic s.tracee.syscall_db) s);
      };
    }

-- The system call that an entry stop ends up with.
pub entry-current :
    (env : Env) (info : SystemCallInfo) (s : Local)
    → (c : ℕ) × ((final (resume env info (looked_up env info s))).tracee.current_syscall ≡ some c)
entry-current env info s = elim (Option-cases u) [
  | inl e ↦ absurd (cc (e, resume-known env info (looked_up env info s) refl))
  | inr found ↦ found
]
  where
    u : Option ℕ
    u = (final (resume env info (looked_up env info s))).tracee.current_syscall

-- The end of an entry that goes well: `u` is the state after the test for a resumption.
abbrev pub reported : Env → SystemCallInfo → Bool → Bool → ℕ → Local → Local
reported env info b d c u =
    let h = store u.heap c (set_entry_info (env.hooks (u.heap c)) info (u.heap c)).0 in
    record u {
      tracee = record (u.tracee) { syscall_ctr = (u.tracee.syscall_ctr + 1) % size_mod };
      heap = h;
      log =
          u.log
          ++ syscall_entry u.tracee.id (h c).nr (record no_status { abi_changed = b; resumed = d })
            ∷ [];
    }

pub reported-log :
    (env : Env) (info : SystemCallInfo) (b d : Bool) (c : ℕ) (u : Local) (log : List Effect)
    (id : ℕ)
    → u.log ≡ log
    → u.tracee.id ≡ id
    → let r = reported env info b d c u in
      r.log
      ≡ log
        ++ syscall_entry id (r.heap c).nr (record no_status { abi_changed = b; resumed = d }) ∷ []
reported-log env info b d c u log id e f =
    ap (λ l. l ++ syscall_entry u.tracee.id nr st ∷ []) e
    ∙ ap (λ i. log ++ syscall_entry i nr st ∷ []) f
  where
    nr : ℕ
    nr = ((reported env info b d c u).heap c).nr

    st : StatusFlags
    st = record no_status { abi_changed = b; resumed = d }

abbrev pub abi_changed_at : Env → SystemCallInfo → Local → Bool
abi_changed_at env info s =
    let t = looked_up env info s in
    abi_change (t.heap (place (Maps.find info.generic s.tracee.syscall_db) s)).abi info.abi

abbrev pub resumed_at : Env → SystemCallInfo → Local → Bool
resumed_at env info s = answer_of (resume env info (looked_up env info s))

pub entry-reported :
    (env : Env) (info : SystemCallInfo) (s : Local) (c : ℕ)
    → verify_arch env.build info ≡ true
    → EntersWell env info
    → (final (resume env info (looked_up env info s))).tracee.current_syscall ≡ some c
    → handle_system_call_entry env info s
      ≡ returns tt (
          reported env info
            (abi_changed_at env info s)
            (resumed_at env info s)
            c
            (final (resume env info (looked_up env info s))))
unfolding handle_system_call_entry
entry-reported env info s c v w e = grind (arith, db_get-returns, resume-returns, w)
