-- ===== src/Engine/Lookup.antt =====
-- Events of processes that are in the table, and of those that are not: tryUpdateTraceePID,
-- checkUnknownTraceeEvent, handleEvent and the inner loop of trace in src/Engine.cxx.
use clues.Common.{
  ℕ, suc, ◌≡◌, ◌≢◌, refl, true, none, some, List, ◌==◌, if◌then◌else◌, is_some, arith, Bool-cases,
  Option-cases, inl, inr, ap, ◌∙◌,
}
use clues.Common.Maps
use clues.Outcome.{M, Outcome, returns, throws, final, ◌>>=◌, when}
use clues.Tracee.State.{Env, ChildState}
use clues.Engine.World.{World}
use clues.Engine.Registry.{try_update_tracee_pid}
use clues.Engine.Loop.{
  Decision, retry, drop, store, done, handle_event, handle_known, check_unknown_tracee_event,
  handle_until_done, decide,
}

find-moved :
    (old new p : ℕ) (i : ℕ) (m : List (ℕ × ℕ))
    → Maps.IsSorted m
    → old ≢ new
    → Maps.find new m ≡ none
    → Maps.find p (Maps.insert new i (Maps.erase old m))
      ≡ (if p == new then some i else if p == old then none else Maps.find p m)
find-moved old new p i m s n f = elim (Bool-cases (p == new)) [
  | inl e ↦ grind (
    arith,
    Maps.find-insert_self new i (Maps.erase old m) (Maps.erase-IsSorted old m s),
    Maps.find-erase old new m s,
  )
  | inr e ↦ grind (arith, Maps.find-insert_ne new p i (Maps.erase old m), Maps.find-erase old p m s)
]

-- A tracee whose process id has changed is found under the new id, where nothing else was, and no
-- longer under the old one. No other entry changes. Without an entry for the old id nothing happens.
pub try_update_tracee_pid_lem :
    (old_pid new_pid : ℕ) (i : ℕ) (w : World)
    → Maps.IsSorted w.tracees
    → old_pid ≢ new_pid
    → Maps.find old_pid w.tracees ≡ some i
    → Maps.find new_pid w.tracees ≡ none
    → let r = final (try_update_tracee_pid old_pid new_pid w) in
      (try_update_tracee_pid old_pid new_pid w ≡ returns true r)
      × (Maps.find new_pid r.tracees ≡ some i)
      × (Maps.find old_pid r.tracees ≡ none)
      × ((pid : ℕ)
          → pid ≢ old_pid
          → pid ≢ new_pid
          → Maps.find pid r.tracees ≡ Maps.find pid w.tracees)
      × Maps.IsSorted r.tracees
unfolding try_update_tracee_pid
try_update_tracee_pid_lem old_pid new_pid i w s n e f = rw e (
  refl,
  at new_pid ∙ ground arith,
  at old_pid ∙ ground arith,
  λ pid a b. at pid ∙ ground arith,
  Maps.insert-IsSorted new_pid i (Maps.erase old_pid w.tracees)
      (Maps.erase-IsSorted old_pid w.tracees s),
)
  where
    at :
        (p : ℕ)
        → Maps.find p (Maps.insert new_pid i (Maps.erase old_pid w.tracees))
          ≡ (if p == new_pid then some i else if p == old_pid then none else Maps.find p w.tracees)
    at p = find-moved old_pid new_pid p i w.tracees s n f

-- A test of an event's handling: when it returns, it is with DONE.
abbrev Done : Outcome World Decision → Type 0
Done (returns d t) = d ≡ done
Done (throws e t) = Unit

handle_known-Done :
    (env : Env) (handle : ChildState → M World Decision) (i : ℕ) (info : ChildState) (w : World)
    → Done (handle_known env handle i info w)
unfolding handle_known
handle_known-Done env handle i info w = ground arith

-- An unknown process is never DONE; after RETRY its id is in the table.
abbrev Undone : ℕ → Outcome World Decision → Type 0
Undone pid (returns d t) = (d ≢ done) × (d ≡ retry → is_some (Maps.find pid t.tracees) ≡ true)
Undone pid (throws e t) = Unit

update-returns :
    (old_pid new_pid : ℕ) (w : World)
    → try_update_tracee_pid old_pid new_pid w
      ≡ returns
          (is_some (Maps.find old_pid w.tracees))
          (final (try_update_tracee_pid old_pid new_pid w))
unfolding try_update_tracee_pid
update-returns old_pid new_pid w = ground arith

update-found :
    (old_pid new_pid : ℕ) (w : World)
    → Maps.IsSorted w.tracees
    → Maps.find new_pid w.tracees ≡ none
    → is_some (Maps.find old_pid w.tracees) ≡ true
    → is_some (Maps.find new_pid (final (try_update_tracee_pid old_pid new_pid w)).tracees) ≡ true
unfolding try_update_tracee_pid
update-found old_pid new_pid w s f h = elim (Option-cases (Maps.find old_pid w.tracees)) [
  | inl e ↦ absurd (cc (h, e))
  | inr (i, e) ↦ rw e (
      ap is_some (
        Maps.find-insert_self new_pid i (Maps.erase old_pid w.tracees)
          (Maps.erase-IsSorted old_pid w.tracees s)
          (ground (arith, Maps.find-erase old_pid new_pid w.tracees s))))
]

check_unknown-Undone :
    (env : Env) (info : ChildState) (w : World)
    → Maps.IsSorted w.tracees
    → Maps.find info.pid w.tracees ≡ none
    → Undone info.pid (check_unknown_tracee_event env info w)
unfolding check_unknown_tracee_event
check_unknown-Undone env info w s f = grind (arith, update-returns, update-found)

handle_event-Done :
    (env : Env) (fuel : ℕ) (info : ChildState) (w : World)
    → is_some (Maps.find info.pid w.tracees) ≡ true
    → Done (handle_event env (suc fuel) info w)
unfolding handle_event
handle_event-Done env fuel info w h = elim (Option-cases (Maps.find info.pid w.tracees)) [
  | inl e ↦ absurd (cc (h, e))
  | inr (i, e) ↦ rw e (handle_known-Done env (handle_event env fuel) i info w)
]

handle_event-Undone :
    (env : Env) (fuel : ℕ) (info : ChildState) (w : World)
    → Maps.IsSorted w.tracees
    → Maps.find info.pid w.tracees ≡ none
    → Undone info.pid (handle_event env (suc fuel) info w)
unfolding handle_event
handle_event-Undone env fuel info w s f = rw f (check_unknown-Undone env info w s f)

-- The inner loop after the outcome of `handle_event`.
abbrev continue_with : Env → ℕ → ℕ → ChildState → Outcome World Decision → Outcome World (Unit {0})
continue_with env retries fuel info (returns d t) =
    (decide info d >>= λ again. when again (handle_until_done env retries fuel info)) t
continue_with env retries fuel info (throws e t) = throws e t

Done-continues :
    (env : Env) (n k fuel : ℕ) (info : ChildState) (r : Outcome World Decision)
    → Done r
    → continue_with env n fuel info r ≡ continue_with env k fuel info r
Done-continues env n k fuel info (returns d t) h = rw h refl
Done-continues env n k fuel info (throws e t) h = refl

handle_until_done-known :
    (env : Env) (n k fuel : ℕ) (info : ChildState) (w : World)
    → is_some (Maps.find info.pid w.tracees) ≡ true
    → handle_until_done env (suc n) (suc fuel) info w
      ≡ handle_until_done env (suc k) (suc fuel) info w
unfolding handle_until_done
handle_until_done-known env n k fuel info w h =
    Done-continues env n k (suc fuel) info (handle_event env (suc fuel) info w)
      (handle_event-Done env fuel info w h)

Undone-continues :
    (env : Env) (n k fuel : ℕ) (info : ChildState) (r : Outcome World Decision)
    → Undone info.pid r
    → continue_with env (suc n) (suc fuel) info r ≡ continue_with env (suc k) (suc fuel) info r
Undone-continues env n k fuel info (throws e t) h = refl
Undone-continues env n k fuel info (returns retry t) h =
    handle_until_done-known env n k fuel info t (h.1 refl)
Undone-continues env n k fuel info (returns drop t) h = refl
Undone-continues env n k fuel info (returns store t) h = refl
Undone-continues env n k fuel info (returns done t) h = refl

-- An event is handled at most twice: to allow the inner loop of `trace` more than one retry does not
-- change its outcome, as a process that is updated is found at the retry.
pub handle_until_done-enough :
    (env : Env) (n fuel : ℕ) (info : ChildState) (w : World)
    → Maps.IsSorted w.tracees
    → handle_until_done env (suc (suc n)) (suc fuel) info w
      ≡ handle_until_done env 2 (suc fuel) info w
unfolding handle_until_done
handle_until_done-enough env n fuel info w s = elim (Option-cases (Maps.find info.pid w.tracees)) [
  | inl e ↦
      Undone-continues env n 0 fuel info (handle_event env (suc fuel) info w)
        (handle_event-Undone env fuel info w s e)
  | inr (i, e) ↦ handle_until_done-known env (suc n) 1 fuel info w (ap is_some e)
]
