-- ===== src/Engine/Restarts.antt =====
-- No tracee is left stopped: the end of processEvent of src/Tracee.cxx.
use clues.Common.{
  List, [], ◌∷◌, ◌++◌, ◌⊎◌, suc, ℕ, ◌≡◌, refl, ap, ◌∙◌, Bool, true, false, ◌&&◌, ◌==◌, Option, none,
  some, ◌||◌, inl, inr, arith, Bool-cases, ==_refl,
}
use clues.Outcome.{M, Outcome, returns, throws, ok, final, ◌>>=◌, ◌>>◌, when, get}
use clues.Tracee.State.{
  Tracee, Local, Env, Effect, restarted, resumed_by_signal, signal_delivery_stop, ChildState,
  ChildEvent, exited, killed, dumped, trapped, stopped, continued, TrapSignal, change_state,
  enter_state, set_state, is_gone, is_running, is_listen, running,
}
use clues.Tracee.Detach.{sig_cont, do_detach, handle_error}
use clues.Tracee.Events.{handle_signal}
use clues.Engine.World.{World, on, change, focus, restore}
use clues.Engine.Process.{
  process_event, dispatch, detach_or_trap, other_event, restart_tracee, vanish, handle_trap,
  deliver,
}

-- Where a run returns, its last state has a property.
abbrev pub EndsAt : {S A : Type 0} → (S → Type 0) → Outcome S A → Type 0
EndsAt P (returns a s) = P s
EndsAt P (throws e s) = Unit

abbrev pub Ends : {S A : Type 0} → (S → Type 0) → M S A → Type 0
Ends P m = (s : _) → EndsAt P (m s)

bind-Ends :
    {S A B : Type 0} (P : S → Type 0) (m : M S A) (k : A → M S B)
    → ((a : A) → Ends P (k a))
    → Ends P (m >>= k)
bind-Ends {S} {A} {B} P m k h s = go (m s)
  where
    go : (r : Outcome S A) → EndsAt P (elim r [ returns a t ↦ k a t | throws e t ↦ throws e t ])
    go (returns a t) = h a t
    go (throws e t) = tt

-- The log ends with the restart of a tracee, in its mode and with the signal that is injected, and perhaps
-- with the report that its group stop is over.
abbrev pub EndsRestarted : Tracee → List Effect → Type 0
EndsRestarted t log =
    (l : List Effect) × ((log ≡ l ++ restarted t.id t.restart_mode t.inject_sig ∷ [])
      ⊎ (log
          ≡ (l ++ restarted t.id t.restart_mode t.inject_sig ∷ []) ++ resumed_by_signal t.id ∷ []))

-- A tracee that the kernel has been asked to restart last of all, and that runs or listens for the end of
-- its group stop; or one that is dead or detached.
abbrev pub HasLetRun : Tracee → List Effect → Type 0
HasLetRun t log =
    (is_gone t.state ≡ true)
    ⊎ (((is_running t.state || is_listen t.restart_mode) ≡ true) × EndsRestarted t log)

abbrev LetRun : Local → Type 0
LetRun s = HasLetRun s.tracee s.log

abbrev Gone : Local → Type 0
Gone s = is_gone s.tracee.state ≡ true

-- What a restart adds to the log, and the requests that it makes.
abbrev RestartedFrom : Local → Local → Type 0
RestartedFrom s t =
    (is_gone t.tracee.state ≡ true)
    ⊎ (((is_running t.tracee.state || is_listen t.tracee.restart_mode) ≡ true)
        × ((t.log ≡ s.log ++ restarted t.tracee.id t.tracee.restart_mode t.tracee.inject_sig ∷ [])
            ⊎ (t.log
                ≡ (s.log ++ restarted t.tracee.id t.tracee.restart_mode t.tracee.inject_sig ∷ [])
                  ++ resumed_by_signal t.tracee.id ∷ [])))

restart-from : (env : Env) (s : Local) → EndsAt (RestartedFrom s) (restart_tracee env s)
unfolding restart_tracee change_state set_state enter_state
restart-from env s = ground arith

from-LetRun : (s t : Local) → RestartedFrom s t → LetRun t
from-LetRun s t (inl g) = inl g
from-LetRun s t (inr (r, l)) = inr (r, (s.log, l))

Ends-map :
    {S A : Type 0} {P Q : S → Type 0} (m : M S A) → ((s : S) → P s → Q s) → Ends P m → Ends Q m
Ends-map {S} {A} {P} {Q} m f h s = go (m s) (h s)
  where
    go : (r : Outcome S A) → EndsAt P r → EndsAt Q r
    go (returns a t) e = f t e
    go (throws x t) e = tt

restart_tracee-Ends : (env : Env) → Ends LetRun (restart_tracee env)
restart_tracee-Ends env s = go (restart_tracee env s) (restart-from env s)
  where
    go : (r : Outcome Local (Unit {0})) → EndsAt (RestartedFrom s) r → EndsAt LetRun r
    go (returns a t) e = from-LetRun s t e
    go (throws x t) e = tt

vanish-Gone : (env : Env) (info : ChildState) → Ends Gone (vanish env info)
unfolding vanish change_state set_state enter_state
vanish-Gone env info s = ground arith

vanish-Ends : (env : Env) (info : ChildState) → Ends LetRun (vanish env info)
vanish-Ends env info = Ends-map (vanish env info) (λ s g. inl g) (vanish-Gone env info)

do_detach-Gone : (env : Env) → Ends Gone (do_detach env)
unfolding do_detach change_state set_state enter_state handle_error
do_detach-Gone env s = ground arith

do_detach-Ends : (env : Env) → Ends LetRun (do_detach env)
do_detach-Ends env = Ends-map (do_detach env) (λ s g. inl g) (do_detach-Gone env)

-- Tracee `i` of the world.
abbrev pub IsLetRun : ℕ → World → Type 0
IsLetRun i w = HasLetRun (w.objects i) w.log

on-Ends : {A : Type 0} (i : ℕ) (m : M Local A) → Ends LetRun m → Ends (IsLetRun i) (on i m)
unfolding on restore
on-Ends {A} i m h w = go (m (focus i w)) (h (focus i w))
  where
    go :
        (r : Outcome Local A)
        → EndsAt LetRun r
        → EndsAt (IsLetRun i) (elim r [
          | returns a l ↦ returns a (restore i w l)
          | throws e l ↦ throws e (restore i w l)
        ])
    go (returns a l) e = rw (==_refl i) e
    go (throws x l) e = tt

module _ (env : Env) (i : ℕ) where
  trap-Ends :
      (pid : ℕ) (t : TrapSignal) (b : Bool) → Ends (IsLetRun i) (detach_or_trap env i pid t b)
  trap-Ends pid t true = on-Ends i (do_detach env) (do_detach-Ends env)
  trap-Ends pid t false =
      bind-Ends (IsLetRun i) (handle_trap env i pid t) (λ u. on i (restart_tracee env))
        (λ u. on-Ends i (restart_tracee env) (restart_tracee-Ends env))

  other-Ends :
      (event : ChildEvent) (signal : ℕ) → Ends (IsLetRun i) (other_event env i event signal)
  other-Ends event signal =
      bind-Ends (IsLetRun i) (when (env.signaled_event event) (on i (deliver env signal)))
        (λ u. on i (restart_tracee env))
        (λ u. on-Ends i (restart_tracee env) (restart_tracee-Ends env))

  dispatch-Ends :
      (info : ChildState) (event : ChildEvent) → Ends (IsLetRun i) (dispatch env i info event)
  dispatch-Ends info (exited n) = on-Ends i (vanish env info) (vanish-Ends env info)
  dispatch-Ends info (killed n) = on-Ends i (vanish env info) (vanish-Ends env info)
  dispatch-Ends info (dumped n) = on-Ends i (vanish env info) (vanish-Ends env info)
  dispatch-Ends info (trapped t) =
      bind-Ends (IsLetRun i) get
        (λ w. detach_or_trap env i info.pid t ((w.objects i).flags.detach_at_next_stop))
        (λ w. trap-Ends info.pid t ((w.objects i).flags.detach_at_next_stop))
  dispatch-Ends info (stopped n) = other-Ends (stopped n) n
  dispatch-Ends info (continued n) = other-Ends (continued n) n

-- Whatever event processEvent has handled for a tracee: when it returns, the tracee is not left in its
-- stop. The last request of all has restarted it, in its mode and with the signal to inject, and it runs
-- or listens for the end of its group stop; or it is dead or detached.
pub process_event-LetRun :
    (env : Env) (i : ℕ) (info : ChildState) (w : World)
    → EndsAt (IsLetRun i) (process_event env i info w)
unfolding process_event
process_event-LetRun env i info w =
    bind-Ends (IsLetRun i) (change i (λ t. record t { inject_sig = none }))
      (λ u. dispatch env i info info.event) (λ u. dispatch-Ends env i info info.event) w

signal_handled :
    (n : ℕ) (s : Local)
    → let r = final (handle_signal n s) in
      (handle_signal n s ≡ returns tt r)
      × (r.tracee.state ≡ s.tracee.state)
      × (r.tracee.restart_mode ≡ s.tracee.restart_mode)
      × (r.tracee.id ≡ s.tracee.id)
      × (r.clock ≡ s.clock)
unfolding handle_signal
signal_handled n s = elim (Bool-cases (s.tracee.flags.injected_sigcont && n == sig_cont)) [
  | inl own ↦ rw own (refl, refl, refl, refl, refl)
  | inr other ↦ rw other (refl, refl, refl, refl, refl)
]

-- A signal delivery stop of a tracee that is to run on, and the restart after it.
delivered :
    (env : Env) (signal number : ℕ) (s : Local)
    → ((c : ℕ) (p : Option ℕ) → env.get_sig_info c p ≡ ok number)
    → let r = final (deliver env signal s) in
      (deliver env signal s ≡ returns tt r)
      × (r.tracee.state ≡ signal_delivery_stop)
      × (r.tracee.restart_mode ≡ s.tracee.restart_mode)
      × (r.tracee.inject_sig ≡ some signal)
      × (r.tracee.id ≡ s.tracee.id)
      × (r.clock ≡ suc s.clock)
unfolding deliver change_state set_state enter_state
delivered env signal number s g = grind (arith, g s.clock s.tracee.pid, signal_handled)

let_run :
    (env : Env) (s : Local)
    → s.tracee.state ≡ signal_delivery_stop
    → is_listen s.tracee.restart_mode ≡ false
    → ((c : ℕ) (p : Option ℕ) → env.restart c p ≡ ok tt)
    → let r = final (restart_tracee env s) in
      (restart_tracee env s ≡ returns tt r)
      × (r.tracee.state ≡ running)
      × (r.log ≡ s.log ++ restarted s.tracee.id s.tracee.restart_mode s.tracee.inject_sig ∷ [])
      × (r.clock ≡ suc s.clock)
unfolding restart_tracee change_state set_state enter_state
let_run env s a l k = ground (arith, k s.clock s.tracee.pid)

then-returns :
    {S B : Type 0} (m : M S (Unit {0})) (k : M S B) (s t : S)
    → m s ≡ returns tt t
    → (m >> k) s ≡ k t
then-returns {S} {B} m k s t e = ap after e
  where
    after : Outcome S (Unit {0}) → Outcome S B
    after r = elim r [ returns a u ↦ k u | throws x u ↦ throws x u ]

-- A signal for a tracee whose mode of restart is not LISTEN, where the kernel answers both requests: the
-- stop is handled to its end, with just these two requests, the last thing is a restart of this tracee in
-- its mode with the signal injected, and the tracee runs.
pub signal_stop_lem :
    (env : Env) (signal number : ℕ) (s : Local)
    → is_listen s.tracee.restart_mode ≡ false
    → ((c : ℕ) (p : Option ℕ) → env.get_sig_info c p ≡ ok number)
    → ((c : ℕ) (p : Option ℕ) → env.restart c p ≡ ok tt)
    → let r = final ((deliver env signal >> restart_tracee env) s) in
      ((deliver env signal >> restart_tracee env) s ≡ returns tt r)
      × (r.tracee.state ≡ running)
      × (r.clock ≡ suc (suc s.clock))
      × (r.log
          ≡ (final (deliver env signal s)).log
            ++ restarted s.tracee.id s.tracee.restart_mode (some signal) ∷ [])
signal_stop_lem env signal number s l g k =
    let d = delivered env signal number s g in
    let m = final (deliver env signal s) in
    let r = let_run env m d.1 (ap is_listen d.2 ∙ l) k in
    rw (then-returns (deliver env signal) (restart_tracee env) s m d.0) (
      r.0,
      r.1,
      r.3 ∙ ap suc d.5,
      r.2 ∙ ap (λ e. m.log ++ e ∷ []) (λ i. restarted (d.4 i) (d.2 i) (d.3 i)),
    )
