-- ===== src/Engine/Backlog.antt =====
-- What is stored for processes that are not known yet: handleEvent and trace of src/Engine.cxx.
use clues.Common.{
  arith, ℕ, zero, suc, ◌≡◌, refl, ap, sym, subst, ◌∙◌, false, Option, none, some, List,
  Option-cases, inl, inr, ◌==◌, Bool-cases, ==_iff, ◌≢◌,
}
use clues.Common.Maps
use clues.Outcome.{M, Outcome, returns, throws, final, catch, ◌>>=◌, ◌>>◌, pure, when, modify}
use clues.Tracee.State.{Env, ChildState}
use clues.Engine.World.{World}
use clues.Engine.Registry.{check_cleanup_tracee, try_update_tracee_pid}
use clues.Engine.Process.{process_event}
use clues.Engine.Inbox.{Keeps, catch-Keeps, check_cleanup_tracee-Keeps}
use clues.Engine.Stored.{stored, process_event-KeepsStored}
use clues.Engine.Nesting.{IsStop, HoldsStops, log_api_error-Keeps}
use clues.Engine.Loop.{
  Decision, retry, drop, store, done, check_unknown_events, check_unknown_tracee_event,
  handle_known, handle_event, handle_found, log_api_error, check_pid, deliver_stored,
  handle_until_done, decide,
}
use clues.Engine.Deciding.{Decided, handle_event-Decided}

-- The stored events are ordered by their processes, and all are stops.
pub record IsBacklog (events : List (ℕ × ChildState)) : Type 0 where
  pub sorted : Maps.IsSorted events
  pub stops : HoldsStops events

-- A function that keeps the stored events so.
abbrev Stays : {A : Type 0} → M World A → Type 0
Stays m = (w : World) → IsBacklog w.unknown_events → IsBacklog (final (m w)).unknown_events

bind-Stays :
    {A B : Type 0} (m : M World A) (k : A → M World B)
    → Stays m
    → ((a : A) → Stays (k a))
    → Stays (m >>= k)
bind-Stays {A} {B} m k h g w v = go (m w) (h w v)
  where
    go :
        (r : Outcome World A)
        → IsBacklog (final r).unknown_events
        → IsBacklog
            (final (elim r as (λ x. Outcome World B) [
              | returns a t ↦ k a t
              | throws e t ↦ throws e t
            ])).unknown_events
    go (returns a t) e = g a t e
    go (throws x t) e = e

Keeps-Stays : {A : Type 0} (m : M World A) → Keeps stored m → Stays m
Keeps-Stays m k w v = subst IsBacklog (sym (k w)) v

some_equal : {A : Type 0} (a b : A) → some a ≡ some b → a ≡ b
some_equal a b e = cc e

insert-HoldsStops :
    (info : ChildState) (events : List (ℕ × ChildState))
    → IsStop info
    → IsBacklog events
    → HoldsStops (Maps.insert info.pid info events)
insert-HoldsStops info events stop v pid j e = elim (Bool-cases (pid == info.pid)) [
  | inr other ↦
      v.stops pid j (sym (Maps.find-insert_ne info.pid pid info events (differ other)) ∙ e)
  | inl same ↦ elim (Option-cases (Maps.find info.pid events)) [
    | inl new ↦
        subst IsStop
          (some_equal info j (
            sym (Maps.find-insert_self info.pid info events v.sorted new)
            ∙ ap (λ k. Maps.find k (Maps.insert info.pid info events))
                (sym ((==_iff pid info.pid).0 same))
            ∙ e))
          stop
    | inr (old, there) ↦
        v.stops pid j (
          sym (ap (Maps.find pid) (Maps.insert_present info.pid info old events v.sorted there))
          ∙ e)
  ]
]
  where
    differ : (pid == info.pid) ≡ false → pid ≢ info.pid
    differ o = ground arith

insert-IsBacklog :
    (info : ChildState) (events : List (ℕ × ChildState))
    → IsStop info
    → IsBacklog events
    → IsBacklog (Maps.insert info.pid info events)
insert-IsBacklog info events stop v = record {
  sorted = Maps.insert-IsSorted info.pid info events v.sorted;
  stops = insert-HoldsStops info events stop v;
}

erase-IsBacklog :
    (pid : ℕ) (events : List (ℕ × ChildState))
    → IsBacklog events
    → IsBacklog (Maps.erase pid events)
erase-IsBacklog pid events v = record {
  sorted = Maps.erase-IsSorted pid events v.sorted;
  stops = λ k j e. v.stops k j (ground (arith, Maps.find-erase pid k events v.sorted));
}

check_unknown-Stays :
    (h : ChildState → M World Decision)
    → ((info : ChildState) → Stays (h info))
    → Stays (check_unknown_events h)
unfolding check_unknown_events
check_unknown-Stays h s w v = noted_pid w.newly_attached
  where
    note : World
    note = record w { newly_attached = none }

    event :
        (pid : ℕ) (o : Option ChildState)
        → IsBacklog (final (deliver_stored h pid o note)).unknown_events
    event pid none = v
    event pid (some info) =
        bind-Stays (h info)
          (λ d. modify (λ t. record t { unknown_events = Maps.erase pid t.unknown_events }))
          (s info) (λ d t b. erase-IsBacklog pid t.unknown_events b) note v

    noted_pid : (o : Option ℕ) → IsBacklog (final (check_pid h o w)).unknown_events
    noted_pid none = v
    noted_pid (some pid) = event pid (Maps.find pid w.unknown_events)

handle_known-Stays :
    (env : Env) (h : ChildState → M World Decision) (i : ℕ) (info : ChildState)
    → ((j : ChildState) → Stays (h j))
    → Stays (handle_known env h i info)
unfolding handle_known
handle_known-Stays env h i info s =
    bind-Stays (catch (process_event env i info) log_api_error)
      (λ u. check_cleanup_tracee env info.pid i >> (check_unknown_events h >> pure done))
      (Keeps-Stays (catch (process_event env i info) log_api_error) (
        catch-Keeps stored (process_event env i info) log_api_error
          (process_event-KeepsStored env i info) (log_api_error-Keeps stored)))
      (λ u.
        bind-Stays (check_cleanup_tracee env info.pid i) (λ a. check_unknown_events h >> pure done)
          (Keeps-Stays (check_cleanup_tracee env info.pid i)
            (check_cleanup_tracee-Keeps stored env info.pid i))
          (λ a.
            bind-Stays (check_unknown_events h) (λ b. pure done) (check_unknown-Stays h s)
              (λ b t v. v)))

check_unknown_tracee-Keeps :
    (env : Env) (info : ChildState) → Keeps stored (check_unknown_tracee_event env info)
unfolding check_unknown_tracee_event try_update_tracee_pid
check_unknown_tracee-Keeps env info w = grind (arith)

found-Stays :
    (env : Env) (h : ChildState → M World Decision) (o : Option ℕ) (info : ChildState)
    → ((j : ChildState) → Stays (h j))
    → Stays (handle_found env h o info)
found-Stays env h none info s =
    Keeps-Stays (check_unknown_tracee_event env info) (check_unknown_tracee-Keeps env info)
found-Stays env h (some i) info s = handle_known-Stays env h i info s

handle_event-Stays : (env : Env) (fuel : ℕ) (info : ChildState) → Stays (handle_event env fuel info)
unfolding handle_event
handle_event-Stays env zero info w v = v
handle_event-Stays env (suc fuel) info w v =
    found-Stays env (handle_event env fuel) (Maps.find info.pid w.tracees) info
      (handle_event-Stays env fuel) w v

-- One round of the inner loop, after the handling of the event.
Decided-IsBacklog :
    (info : ChildState) (again : M World (Unit {0})) (r : Outcome World Decision)
    → Stays again
    → Decided info.event r
    → IsBacklog (final r).unknown_events
    → IsBacklog
        (final (elim r as (λ x. Outcome World (Unit {0})) [
          | returns d t ↦ (decide info d >>= λ b. when b again) t
          | throws e t ↦ throws e t
        ])).unknown_events
Decided-IsBacklog info again (throws e t) s d v = v
Decided-IsBacklog info again (returns retry t) s d v = s t v
Decided-IsBacklog info again (returns drop t) s d v = v
Decided-IsBacklog info again (returns done t) s d v = v
Decided-IsBacklog info again (returns store t) s d v =
    insert-IsBacklog info t.unknown_events (d refl) v

-- Whatever event arrives, the stored events stay ordered, and only stops are among them.
pub handle_until_done-IsBacklog :
    (env : Env) (retries fuel : ℕ) (info : ChildState) (w : World)
    → IsBacklog w.unknown_events
    → IsBacklog (final (handle_until_done env retries fuel info w)).unknown_events
unfolding handle_until_done
handle_until_done-IsBacklog env zero fuel info w v = v
handle_until_done-IsBacklog env (suc retries) fuel info w v =
    Decided-IsBacklog info (handle_until_done env retries fuel info) (handle_event env fuel info w)
      (handle_until_done-IsBacklog env retries fuel info) (handle_event-Decided env fuel info w)
      (handle_event-Stays env fuel info w v)
