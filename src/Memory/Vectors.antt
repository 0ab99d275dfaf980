-- ===== src/Memory/Vectors.antt =====
-- What readVector and readString of src/Tracee.cxx return.
use mathlib.Core.List.{append_assoc, append-nil}
use clues.Common.{
  ℕ, zero, suc, ◌+◌, ◌-◌, ◌/◌, ◌%◌, ◌≤◌, ◌<◌, ◌≡◌, refl, sym, subst, ◌⊎◌, inl, inr, Bool, true,
  false, ◌&&◌, List, [], ◌∷◌, ◌++◌, arith, ◌==◌, if◌then◌else◌, take, length, Bool-cases,
}
use clues.Memory.{
  Peek, word, finished, word_size, size_mod, increment, fill_data, items, FillConfig, Container,
  fill_items, read_vector,
}

-- The items in front of the first zero, or all of them.
abbrev pub before_zero : Bool → List ℕ → List ℕ
before_zero stop [] = []
before_zero stop (x ∷ xs) = if stop && x == 0 then [] else x ∷ before_zero stop xs

-- The memory holds these words, one after the other.
abbrev pub Holds : (ℕ → Peek) → ℕ → List (List ℕ) → Type 0
Holds peek addr [] = Unit {0}
Holds peek addr (w ∷ ws) = (peek addr ≡ word w) × Holds peek (increment word_size addr) ws

abbrev pub all_items : ℕ → List (List ℕ) → List ℕ
all_items size [] = []
all_items size (w ∷ ws) = items size (word_size / size) w ++ all_items size ws

module _ (c : FillConfig) where
  fill_items-append :
      (xs ys : List ℕ) (s : Container)
      → fill_items c (xs ++ ys) s ≡ (
          if (fill_items c xs s).1
          then fill_items c ys (fill_items c xs s).0
          else ((fill_items c xs s).0, false))
  unfolding fill_items
  fill_items-append [] ys s = refl
  fill_items-append (x ∷ xs) ys s = ground (
    arith,
    fill_items-append xs ys
        (record { content = s.content ++ x ∷ []; filled = (s.filled + 1) % size_mod }),
  )

  fill_items-content :
      (xs : List ℕ) (k : ℕ) (s : Container)
      → s.filled + suc k ≡ c.max
      → c.max < size_mod
      → (fill_items c xs s).0.content ≡ s.content ++ take (suc k) (before_zero c.stop_at_zero xs)
  unfolding fill_items
  fill_items-content [] k s e h = sym (append-nil s.content)
  fill_items-content (x ∷ xs) zero s e h = ground (arith, append-nil s.content)
  fill_items-content (x ∷ xs) (suc k) s e h = ground (
    arith,
    append-nil s.content,
    append_assoc s.content (x ∷ []) (take (suc k) (before_zero c.stop_at_zero xs)),
    fill_items-content xs k
        (record { content = s.content ++ x ∷ []; filled = (s.filled + 1) % size_mod }),
  )

  fill_items-more :
      (xs : List ℕ) (k : ℕ) (s : Container)
      → s.filled + suc k ≡ c.max
      → c.max < size_mod
      → (fill_items c xs s).1 ≡ true
      → (length xs < suc k) × (length (before_zero c.stop_at_zero xs) ≡ length xs)
  unfolding fill_items
  fill_items-more [] k s e h m = omega arith
  fill_items-more (x ∷ xs) zero s e h m = ground arith
  fill_items-more (x ∷ xs) (suc k) s e h m = ground (
    arith,
    fill_items-more xs k
        (record { content = s.content ++ x ∷ []; filled = (s.filled + 1) % size_mod }),
  )

  -- The loop over words ends where the loop over all their items does.
  fill_data-items :
      (peek : ℕ → Peek) (size : ℕ) (ws : List (List ℕ)) (fuel addr : ℕ) (s : Container)
      → Holds peek addr ws
      → length ws ≤ fuel
      → (fill_items c (all_items size ws) s).1 ≡ false
      → fill_data peek (λ w t. fill_items c (items size (word_size / size) w) t) fuel addr s
        ≡ finished (fill_items c (all_items size ws) s).0
  unfolding fill_data
  fill_data-items peek size [] fuel addr s h l e = unfold fill_items in cc e
  fill_data-items peek size (w ∷ ws) zero addr s h l e = absurd (omega arith)
  fill_data-items peek size (w ∷ ws) (suc fuel) addr s h l e = ground (
    arith,
    fill_items-append (items size (word_size / size) w) (all_items size ws) s,
    fill_data-items peek size ws fuel (increment word_size addr)
        (fill_items c (items size (word_size / size) w) s).0 h.1,
  )

-- The words read decide where the loop stops: they hold a zero, or `max` items.
abbrev pub Stops : FillConfig → List ℕ → Type 0
Stops c xs = (length (before_zero c.stop_at_zero xs) < length xs) ⊎ (c.max ≤ length xs)

abbrev empty_container : Container
empty_container = record { content = []; filled = 0 }

fill_items-Stops :
    (c : FillConfig) (xs : List ℕ)
    → 0 < c.max
    → c.max < size_mod
    → Stops c xs
    → (fill_items c xs empty_container).1 ≡ false
fill_items-Stops c xs p h st = elim (Bool-cases (fill_items c xs empty_container).1) [
  | inr e ↦ e
  | inl e ↦
      absurd (omega (arith, fill_items-more c xs (c.max - 1) empty_container (omega arith) h e))
]

-- If the words from `addr` on hold a zero (where reading stops at zero) or `max` items, then
-- readVector returns after reading these words at most. It has read the items in front of the first
-- zero (all of them where reading does not stop at zero), cut off after `max` items.
pub read_vector_lem :
    (peek : ℕ → Peek) (fuel size addr : ℕ) (c : FillConfig) (ws : List (List ℕ))
    → Holds peek addr ws
    → length ws ≤ fuel
    → 0 < c.max
    → c.max < size_mod
    → Stops c (all_items size ws)
    → (r : Container) × (read_vector peek fuel size addr c ≡ finished r)
      × (r.content ≡ take c.max (before_zero c.stop_at_zero (all_items size ws)))
unfolding read_vector
read_vector_lem peek fuel size addr c ws holds enough p h st = (
  (fill_items c (all_items size ws) empty_container).0,
  fill_data-items c peek size ws fuel addr empty_container holds enough
      (fill_items-Stops c (all_items size ws) p h st),
  content,
)
  where
    exact : suc (c.max - 1) ≡ c.max
    exact = omega arith

    content :
        (fill_items c (all_items size ws) empty_container).0.content
        ≡ take c.max (before_zero c.stop_at_zero (all_items size ws))
    content =
        subst
          (λ n.
            (fill_items c (all_items size ws) empty_container).0.content
            ≡ take n (before_zero c.stop_at_zero (all_items size ws)))
          exact
          (fill_items-content c (all_items size ws) (c.max - 1) empty_container (omega arith) h)

-- A limit of 0 is none: the loop goes on past it, as long as no zero stops it and the number of
-- items fits a size_t.
no_limit :
    (stop : Bool) (xs : List ℕ) (s : Container)
    → s.filled + length xs < size_mod
    → (fill_items (record { max = 0; stop_at_zero = stop }) xs s).0.content
      ≡ s.content ++ before_zero stop xs
unfolding fill_items
no_limit stop [] s h = sym (append-nil s.content)
no_limit stop (x ∷ xs) s h = ground (
  arith,
  append-nil s.content,
  append_assoc s.content (x ∷ []) (before_zero stop xs),
  no_limit stop xs (record { content = s.content ++ x ∷ []; filled = (s.filled + 1) % size_mod }),
)

no_limit-more :
    (stop : Bool) (xs : List ℕ) (s : Container)
    → s.filled + length xs < size_mod
    → length (before_zero stop xs) < length xs
    → (fill_items (record { max = 0; stop_at_zero = stop }) xs s).1 ≡ false
unfolding fill_items
no_limit-more stop [] s h l = absurd (omega arith)
no_limit-more stop (x ∷ xs) s h l = ground (
  arith,
  no_limit-more stop xs
      (record { content = s.content ++ x ∷ []; filled = (s.filled + 1) % size_mod }),
)

-- With `max` 0 readVector does not stop at once: it reads on to the first zero, and returns every
-- item in front of it.
pub read_vector_unlimited :
    (peek : ℕ → Peek) (fuel size addr : ℕ) (ws : List (List ℕ))
    → Holds peek addr ws
    → length ws ≤ fuel
    → length (all_items size ws) < size_mod
    → length (before_zero true (all_items size ws)) < length (all_items size ws)
    → (r : Container) × (read_vector peek fuel size addr (record { max = 0; stop_at_zero = true })
        ≡ finished r)
      × (r.content ≡ before_zero true (all_items size ws))
unfolding read_vector
read_vector_unlimited peek fuel size addr ws holds enough fits zero_there = (
  _,
  fill_data-items (record { max = 0; stop_at_zero = true }) peek size ws fuel addr empty_container
      holds enough
      (no_limit-more true (all_items size ws) empty_container (omega arith) zero_there),
  no_limit true (all_items size ws) empty_container (omega arith),
)
