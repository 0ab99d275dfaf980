-- ===== src/Calls/Order.antt =====
-- The order in which src/SystemCall.cxx fills and updates the parameters of a system call.
use mathlib.Core.List.{append-nil, append_assoc}
use native.Mathlib.Nat.{zero-add}
use clues.Common.{
  ℕ, zero, suc, ◌+◌, ◌<◌, ◌≡◌, refl, ap, subst, ◌∙◌, ◌⊎◌, All, length, fun_ext, Bool, true, false,
  Option, none, some, List, [], ◌∷◌, ◌++◌, arith, ◌==◌, if◌then◌else◌, get_elem?, Bool-cases, inl,
  inr,
}
use clues.Calls.{
  Item, SystemCall, Hooks, ◌then_do◌, to_word, arg_at, fill, fill_deferred, fill_from,
  fill_parameters, set_value, process_data, ItemCall,
}

abbrev pub Fill : Type 0
Fill = ℕ × Bool × ℕ

-- The fills of the parameters that are not deferred, and of those that are, in the order of the
-- parameters.
abbrev pub fills_now : List ℕ → ℕ → List Item → List Fill
fills_now args i [] = []
fills_now args i (p ∷ ps) =
    if p.defer_fill
    then fills_now args (suc i) ps
    else (i, p.unused, to_word (arg_at i args)) ∷ fills_now args (suc i) ps

abbrev pub fills_later : List ℕ → ℕ → List Item → List Fill
fills_later args i [] = []
fills_later args i (p ∷ ps) =
    if p.defer_fill
    then (i, p.unused, to_word (arg_at i args)) ∷ fills_later args (suc i) ps
    else fills_later args (suc i) ps

fill_from-order :
    (h : Hooks) (args : List ℕ) (i : ℕ) (ps : List Item) (deferred : List Fill) (s : SystemCall)
    → fill_from h args i ps deferred s
      ≡ fill_deferred h (fills_now args i ps ++ (deferred ++ fills_later args i ps)) s
unfolding fill_from
fill_from-order h args i [] deferred s = rw (append-nil deferred)
fill_from-order h args i (p ∷ ps) deferred s = elim (Bool-cases p.defer_fill) [
  | inl later ↦ simp later (
      fill_from-order h args (suc i) ps (deferred ++ (i, p.unused, to_word (arg_at i args)) ∷ []) s
      ∙ ap (λ l. fill_deferred h (fills_now args (suc i) ps ++ l) s)
          (append_assoc deferred ((i, p.unused, to_word (arg_at i args)) ∷ [])
            (fills_later args (suc i) ps)))
  | inr now ↦ simp now (
      unfold fill_deferred in
      ap (λ f. fill h i p.unused (to_word (arg_at i args)) s then_do f)
        (fun_ext (λ t. fill_from-order h args (suc i) ps deferred t)))
]

-- fillParameters fills the parameters that are not deferred, in their order, and then the deferred
-- ones, in their order, each with the argument at its own position; it ends early at an exception.
pub fill_parameters_order :
    (h : Hooks) (args : List ℕ) (s : SystemCall)
    → fill_parameters h args s
      ≡ fill_deferred h (fills_now args 0 s.pars ++ fills_later args 0 s.pars) s
unfolding fill_parameters
fill_parameters_order h args s = fill_from-order h args 0 s.pars [] s

-- Runs in which nothing throws.
abbrev pub NeverThrows : Hooks → Type 0
NeverThrows h = (c : ItemCall) → h.throws_at c ≡ none

-- The calls of `processData` that a row of fills makes: none for an unused parameter.
abbrev pub process_calls : List Fill → List ItemCall
process_calls [] = []
process_calls ((i, u, w) ∷ ds) = if u then process_calls ds else process_data i ∷ process_calls ds

abbrev pub apply_fills : List Fill → List Item → List Item
apply_fills [] ps = ps
apply_fills ((i, u, w) ∷ ds) ps = apply_fills ds (set_value i w ps)

module _ (h : Hooks) (quiet : NeverThrows h) where
  pub fill_deferred-quiet :
      (ds : List Fill) (s : SystemCall)
      → fill_deferred h ds s
        ≡ (record s { pars = apply_fills ds s.pars; calls = s.calls ++ process_calls ds }, none)
  unfolding fill_deferred
  fill_deferred-quiet [] s = ground (arith, append-nil s.calls)
  fill_deferred-quiet ((i, true, w) ∷ ds) s =
      fill_deferred-quiet ds (record s { pars = set_value i w s.pars })
  fill_deferred-quiet ((i, false, w) ∷ ds) s = rw (quiet (process_data i)) (
      ground (
        arith,
        append_assoc s.calls (process_data i ∷ []) (process_calls ds),
        fill_deferred-quiet ds
            (record s { pars = set_value i w s.pars; calls = s.calls ++ process_data i ∷ [] }),
      ))

abbrev pub with_value : ℕ → Option Item → Option Item
with_value w none = none
with_value w (some p) = some (record p { value = w })

get_elem?-set_value :
    (i j w : ℕ) (ps : List Item)
    → get_elem? (set_value i w ps) j
      ≡ (if i == j then with_value w (get_elem? ps j) else get_elem? ps j)
unfolding set_value
get_elem?-set_value i j w [] = ground arith
get_elem?-set_value zero zero w (p ∷ ps) = ground arith
get_elem?-set_value zero (suc j) w (p ∷ ps) = ground arith
get_elem?-set_value (suc i) zero w (p ∷ ps) = ground arith
get_elem?-set_value (suc i) (suc j) w (p ∷ ps) = ground (arith, get_elem?-set_value i j w ps)

-- Whether a row of fills reaches a position.
abbrev has : ℕ → List Fill → Bool
has j [] = false
has j ((i, u, w) ∷ ds) = if i == j then true else has j ds

abbrev OwnArgument : List ℕ → Fill → Type 0
OwnArgument args (i, u, w) = w ≡ to_word (arg_at i args)

with_value-twice : (w : ℕ) (o : Option Item) → with_value w (with_value w o) ≡ with_value w o
with_value-twice w none = refl
with_value-twice w (some p) = refl

apply_fills-at :
    (args : List ℕ) (j : ℕ) (ds : List Fill) (ps : List Item)
    → All (OwnArgument args) ds
    → get_elem? (apply_fills ds ps) j
      ≡ (if has j ds then with_value (to_word (arg_at j args)) (get_elem? ps j) else get_elem? ps j)
apply_fills-at args j [] ps a = refl
apply_fills-at args j ((i, u, w) ∷ ds) ps a = ground (
  arith,
  apply_fills-at args j ds (set_value i w ps) a.1,
  get_elem?-set_value i j w ps,
  with_value-twice (to_word (arg_at j args)) (get_elem? ps j),
)

has-append : (j : ℕ) (xs ys : List Fill) → has j (xs ++ ys) ≡ (if has j xs then true else has j ys)
has-append j [] ys = refl
has-append j ((i, u, w) ∷ xs) ys = ground (arith, has-append j xs ys)

All-append {ℓ κ} :
    {A : Type ℓ} (P : A → Type κ) (xs ys : List A) → All P xs → All P ys → All P (xs ++ ys)
All-append P [] ys hx hy = hy
All-append P (x ∷ xs) ys hx hy = (hx.0, All-append P xs ys hx.1 hy)

module _ (args : List ℕ) where
  now-own : (i : ℕ) (ps : List Item) → All (OwnArgument args) (fills_now args i ps)
  now-own i [] = tt
  now-own i (p ∷ ps) = ground (arith, now-own (suc i) ps)

  later-own : (i : ℕ) (ps : List Item) → All (OwnArgument args) (fills_later args i ps)
  later-own i [] = tt
  later-own i (p ∷ ps) = ground (arith, later-own (suc i) ps)

  has-all :
      (i k : ℕ) (ps : List Item)
      → k < length ps
      → (has (i + k) (fills_now args i ps) ≡ true) ⊎ (has (i + k) (fills_later args i ps) ≡ true)
  has-all i k [] h = absurd (omega arith)
  has-all i zero (p ∷ ps) h = ground arith
  has-all i (suc k) (p ∷ ps) h =
      let shift : suc i + k ≡ i + suc k = omega arith in
      let next =
        subst
          (λ n.
            (has n (fills_now args (suc i) ps) ≡ true)
            ⊎ (has n (fills_later args (suc i) ps) ≡ true))
          shift (has-all (suc i) k ps (omega arith)) in
      ground arith

-- Where no item throws, fillParameters gives every parameter the argument at its own position, and
-- calls `processData` of the used ones: first of those that are not deferred, then of the deferred.
pub fill_parameters_lem :
    (h : Hooks) (args : List ℕ) (s : SystemCall) (j : ℕ)
    → NeverThrows h
    → j < length s.pars
    → let r = fill_parameters h args s in
      (r.1 ≡ none)
      × (get_elem? r.0.pars j ≡ with_value (to_word (arg_at j args)) (get_elem? s.pars j))
      × (r.0.calls
          ≡ s.calls ++ process_calls (fills_now args 0 s.pars ++ fills_later args 0 s.pars))
fill_parameters_lem h args s j quiet lt =
    rw (fill_parameters_order h args s)
      (rw (fill_deferred-quiet h quiet all s) (refl, value_at, refl))
  where
    all : List Fill
    all = fills_now args 0 s.pars ++ fills_later args 0 s.pars

    own : All (OwnArgument args) all
    own =
        All-append (OwnArgument args) (fills_now args 0 s.pars) (fills_later args 0 s.pars)
          (now-own args 0 s.pars) (later-own args 0 s.pars)

    place : (has j (fills_now args 0 s.pars) ≡ true) ⊎ (has j (fills_later args 0 s.pars) ≡ true)
    place =
        subst
          (λ n.
            (has n (fills_now args 0 s.pars) ≡ true) ⊎ (has n (fills_later args 0 s.pars) ≡ true))
          (zero-add j) (has-all args 0 j s.pars lt)

    reached : has j all ≡ true
    reached =
        ground (arith, place, has-append j (fills_now args 0 s.pars) (fills_later args 0 s.pars))

    value_at :
        get_elem? (apply_fills all s.pars) j
        ≡ with_value (to_word (arg_at j args)) (get_elem? s.pars j)
    value_at = rw (apply_fills-at args j all s.pars own, reached)
