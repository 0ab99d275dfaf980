-- ===== src/Calls/Entries.antt =====
-- How an entry ends: setEntryInfo of src/SystemCall.cxx.
use clues.Common.{
  ℕ, ◌≡◌, refl, ap, ◌∙◌, true, false, none, some, List, ◌++◌, if◌then◌else◌, Bool-cases, inl, inr,
}
use clues.Outcome.{errno_no_data}
use clues.Errno.{errno_result}
use clues.Abi.{SystemCallInfo}
use clues.Calls.{SystemCall, Hooks, Run, fill_parameters, set_entry_info, entry_args}
use clues.Calls.Order.{
  NeverThrows, fill_parameters_order, fill_deferred-quiet, fills_now, fills_later,
}
use clues.Calls.Results.{then_do-none}

fill_parameters-quiet :
    (h : Hooks) (args : List ℕ) (s : SystemCall)
    → NeverThrows h
    → (fill_parameters h args s).1 ≡ none
fill_parameters-quiet h args s quiet =
    ap (λ r. r.1) (fill_parameters_order h args s)
    ∙ ap (λ r. r.1)
        (fill_deferred-quiet h quiet (fills_now args 0 s.pars ++ fills_later args 0 s.pars) s)

-- The second pass over the parameters, where a class asks for one.
abbrev second_pass : Hooks → List ℕ → SystemCall → Run
second_pass h args t =
    let (u, again) = h.check_2nd_pass t in if again then fill_parameters h args u else (u, none)

second_pass-quiet :
    (h : Hooks) (args : List ℕ) (t : SystemCall) → NeverThrows h → (second_pass h args t).1 ≡ none
second_pass-quiet h args t quiet = elim (Bool-cases (h.check_2nd_pass t).1) [
  | inl again ↦ rw again (fill_parameters-quiet h args (h.check_2nd_pass t).0 quiet)
  | inr once ↦ rw once refl
]

-- Where no item throws, an entry ends without an exception, whether or not the class of the system
-- call asks for a second pass over its parameters, and the call info is no longer set.
pub set_entry_info_lem :
    (h : Hooks) (info : SystemCallInfo) (s : SystemCall)
    → NeverThrows h
    → ((set_entry_info h info s).1 ≡ none) × ((set_entry_info h info s).0.busy ≡ false)
unfolding set_entry_info
set_entry_info_lem h info s quiet =
    rw (then_do-none first (second_pass h args) (fill_parameters-quiet h args start quiet)) (
      rw (then_do-none (second_pass h args first.0) _ (second_pass-quiet h args first.0 quiet))
        (refl, refl))
  where
    args : List ℕ
    args = entry_args info.op

    start : SystemCall
    start =
        h.prepare_new_system_call
          (record s { abi = info.abi; error = some (errno_result errno_no_data); busy = true })

    first : Run
    first = fill_parameters h args start
