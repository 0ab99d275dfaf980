-- ===== src/Calls/Results.antt =====
-- What setEntryInfo and setExitInfo of src/SystemCall.cxx leave behind.
use mathlib.Core.List.{append-nil, append_assoc}
use clues.Common.{
  ℕ, suc, ◌≡◌, refl, sym, ap, ◌∙◌, fun_ext, Option, true, not, ◌&&◌, none, some, List, [], ◌∷◌,
  ◌++◌, arith, if◌then◌else◌, is_some, Bool-cases, inl, inr, ◌⊎◌,
}
use clues.Abi.{Op, exit_value, exit_error}
use clues.Fd.{FdInfoMap}
use clues.Outcome.{Exception}
use clues.Calls.{
  Item, SystemCall, Hooks, Run, ◌then_do◌, ItemCall, update_data, process_return, post_system_call,
  needs_update, update_deferred, update_from, call_item, set_result, run_exit, set_exit_info,
  has_result_value, is_value, tracked,
}
use clues.Calls.Order.{NeverThrows}

-- The positions whose data are updated: of the parameters that are not deferred, and of those that are.
abbrev pub updates_now : ℕ → List Item → List ℕ
updates_now i [] = []
updates_now i (p ∷ ps) =
    if needs_update p && not p.defer_fill
    then i ∷ updates_now (suc i) ps
    else updates_now (suc i) ps

abbrev pub updates_later : ℕ → List Item → List ℕ
updates_later i [] = []
updates_later i (p ∷ ps) =
    if needs_update p && p.defer_fill
    then i ∷ updates_later (suc i) ps
    else updates_later (suc i) ps

update_from-order :
    (h : Hooks) (i : ℕ) (ps : List Item) (deferred : List ℕ) (s : SystemCall)
    → update_from h i ps deferred s
      ≡ update_deferred h (updates_now i ps ++ (deferred ++ updates_later i ps)) s
unfolding update_from
update_from-order h i [] deferred s = rw (append-nil deferred)
update_from-order h i (p ∷ ps) deferred s = elim (Bool-cases (needs_update p)) [
  | inr no_update ↦ simp no_update (update_from-order h (suc i) ps deferred s)
  | inl update ↦ elim (Bool-cases p.defer_fill) [
    | inl later ↦
        simp (update, later)
          (update_from-order h (suc i) ps (deferred ++ i ∷ []) s
            ∙ ap (λ l. update_deferred h (updates_now (suc i) ps ++ l) s)
                (append_assoc deferred (i ∷ []) (updates_later (suc i) ps)))
    | inr now ↦
        simp (update, now)
          (unfold update_deferred in
            ap (λ f. call_item h (update_data i) s then_do f)
              (fun_ext (λ t. update_from-order h (suc i) ps deferred t)))
  ]
]

update_calls : List ℕ → List ItemCall
update_calls [] = []
update_calls (i ∷ is) = update_data i ∷ update_calls is

update_deferred-quiet :
    (h : Hooks)
    → NeverThrows h
    → (is : List ℕ) (s : SystemCall)
    → update_deferred h is s ≡ (record s { calls = s.calls ++ update_calls is }, none)
unfolding update_deferred update_calls
update_deferred-quiet h quiet [] s = ground (arith, append-nil s.calls)
update_deferred-quiet h quiet (i ∷ is) s = rw (quiet (update_data i)) (
    ground (
      arith,
      append_assoc s.calls (update_data i ∷ []) (update_calls is),
      update_deferred-quiet h quiet is (record s { calls = s.calls ++ update_data i ∷ [] }),
    ))

-- The calls of virtual functions that an exit makes.
abbrev pub return_calls : Op → Item → List ItemCall
return_calls (exit_value v) r = if r.unused then [] else process_return ∷ []
return_calls _ r = []

unfoldable pub exit_calls : Op → SystemCall → List ItemCall
unfolding update_calls
exit_calls op s =
    return_calls op s.return_item
    ++ (update_calls (updates_now 0 s.pars ++ updates_later 0 s.pars) ++ post_system_call ∷ [])

abbrev pub IsExit : Op → Type 0
IsExit op = ((v : ℕ) × (op ≡ exit_value v)) ⊎ ((e : ℕ) × (op ≡ exit_error e))

set_result-quiet :
    (h : Hooks)
    → NeverThrows h
    → (op : Op) (s : SystemCall) → IsExit op
    → let r = set_result h op s in
      (r.1 ≡ none)
      × (r.0.pars ≡ s.pars)
      × (r.0.calls ≡ s.calls ++ return_calls op s.return_item)
      × (is_some r.0.error ≡ not (is_value op))
unfolding set_result
set_result-quiet h quiet op s (inl (v, e)) = rw e (elim (Bool-cases s.return_item.unused) [
  | inl u ↦ simp (u, append-nil) (refl, refl, refl, refl)
  | inr u ↦ simp u (quiet process_return, refl, refl, refl)
])
set_result-quiet h quiet op s (inr (v, e)) = rw e (refl, refl, sym (append-nil s.calls), refl)

pub then_do-none : (r : Run) (f : SystemCall → Run) → r.1 ≡ none → (r then_do f) ≡ f r.0
then_do-none (s, none) f e = refl
then_do-none (s, some x) f e = cc

-- The state after the return item is done.
abbrev answered : Hooks → Op → SystemCall → SystemCall
answered h op s = (set_result h op (record s { busy = true })).0

run_exit-quiet :
    (h : Hooks)
    → NeverThrows h
    → (op : Op) (s : SystemCall) → IsExit op
    → run_exit h op s ≡ (record (answered h op s) { calls = s.calls ++ exit_calls op s }, none)
unfolding run_exit exit_calls
run_exit-quiet h quiet op s x =
    rw (then_do-none (set_result h op (record s { busy = true })) _ first.0) (
      rw (update_from-order h 0 (answered h op s).pars [] (answered h op s)) (
        rw
          (
            first.1,
            update_deferred-quiet h quiet (updates_now 0 s.pars ++ updates_later 0 s.pars)
                (answered h op s),
            quiet post_system_call,
          )
          (ground (arith, first.1, row))))
  where
    first :
        ((set_result h op (record s { busy = true })).1 ≡ none)
        × ((answered h op s).pars ≡ s.pars)
        × ((answered h op s).calls ≡ s.calls ++ return_calls op s.return_item)
        × (is_some (answered h op s).error ≡ not (is_value op))
    first = set_result-quiet h quiet op (record s { busy = true }) x

    row :
        (answered h op s).calls
          ++ update_calls (updates_now 0 s.pars ++ updates_later 0 s.pars)
          ++ post_system_call ∷ []
        ≡ s.calls ++ exit_calls op s
    row = unfold exit_calls in rw first.2 (simp append_assoc)

tracked_end :
    (s : SystemCall) (t : FdInfoMap × Option Exception)
    → s.busy ≡ true
    → let r = tracked s t in
      (r.2 ≡ t.1)
      × (has_result_value r.0 ≡ has_result_value s)
      × (r.0.calls ≡ s.calls)
      × (r.0.busy ≡ is_some t.1)
      × (r.1 ≡ t.0)
unfolding has_result_value
tracked_end s (fds, some e) b = (refl, refl, refl, b, refl)
tracked_end s (fds, none) b = (refl, refl, refl, refl, refl)

answered-busy : (h : Hooks) (op : Op) (s : SystemCall) → (answered h op s).busy ≡ true
unfolding set_result
answered-busy h op s = ground arith

-- Where no item and no postSystemCall throws, there is a result value at the end exactly if the kernel
-- reported one. The calls made are: the return item's (with a value, if it is used), `updateData` of
-- the out parameters that are not deferred, then of the deferred ones, then `postSystemCall`. File
-- descriptors are tracked exactly if there is a value. An exception of the tracking is the only one that
-- the exit ends in, and it leaves the call info set; without one the call info is reset.
pub set_exit_info_lem :
    (h : Hooks) (op : Op) (s : SystemCall) (fds : FdInfoMap)
    → NeverThrows h
    → IsExit op
    → let r = set_exit_info h op s fds in
      let t = if is_value op then h.update_fd_tracking (run_exit h op s).0 fds else (fds, none) in
      (r.2 ≡ t.1)
      × (has_result_value r.0 ≡ is_value op)
      × (r.0.calls ≡ s.calls ++ exit_calls op s)
      × (r.0.busy ≡ is_some t.1)
      × (r.1 ≡ t.0)
unfolding set_exit_info has_result_value
set_exit_info_lem h op s fds quiet x = rw (run_exit-quiet h quiet op s x) (
  k.0,
  k.1 ∙ ground (arith, (set_result-quiet h quiet op (record s { busy = true }) x).3),
  k.2,
  k.3,
  k.4,
)
  where
    end_state : SystemCall
    end_state = record (answered h op s) { calls = s.calls ++ exit_calls op s }

    t : FdInfoMap × Option Exception
    t = if is_value op then h.update_fd_tracking end_state fds else (fds, none)

    k :
        (tracked end_state t).2 ≡ t.1
        × has_result_value (tracked end_state t).0 ≡ has_result_value end_state
        × (tracked end_state t).0.calls ≡ end_state.calls
        × (tracked end_state t).0.busy ≡ is_some t.1
        × (tracked end_state t).1 ≡ t.0
    k = tracked_end end_state t (answered-busy h op s)
