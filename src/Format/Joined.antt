-- ===== src/Format/Joined.antt =====
-- The loops that print a set of flags against the names of the flags that are set, with separators
-- between them.
use mathlib.Core.List.{append-nil}
use clues.Common.{
  ℕ, zero, suc, ◌*◌, ◌-◌, ◌<◌, ◌≡◌, refl, ap, sym, ◌∙◌, arith, String, Bool, true, false, ◌==◌,
  List, [], ◌∷◌, ◌++◌, map, if◌then◌else◌, Bool-cases, ≢→==_false, inl, inr, keep_if,
}
use clues.Format.{
  Piece, str, Pieces, signal, signal_set, set_loop, drop_last, has_bit, chk_sa_flags, sa_flags,
  saflags, Limit, infinity, times_1024, plain, limit, rlim_infinity, poll_event, poll_loop,
  poll_events,
}

-- Texts with a separator between each two.
abbrev pub separated : Piece → List Pieces → Pieces
separated s [] = []
separated s (t ∷ []) = t
separated s (t ∷ u ∷ ts) = t ++ s ∷ separated s (u ∷ ts)

-- A separator in front of each text, and behind each.
abbrev pub preceded : Piece → List Pieces → Pieces
preceded s [] = []
preceded s (t ∷ ts) = s ∷ t ++ preceded s ts

abbrev followed : Piece → List Pieces → Pieces
followed s [] = []
followed s (t ∷ ts) = (t ++ s ∷ []) ++ followed s ts

-- The numbers from `start` on.
abbrev pub upto : ℕ → ℕ → List ℕ
upto zero start = []
upto (suc n) start = start ∷ upto n (suc start)

loop-followed :
    (set : ℕ → Bool) (name : ℕ → Pieces) (n start : ℕ)
    → set_loop set name n start ≡ followed (str ", ") (map name (keep_if set (upto n start)))
unfolding set_loop
loop-followed set name zero start = refl
loop-followed set name (suc n) start = elim (Bool-cases (set start)) [
  | inl p ↦
      rw p (ap (λ r. (name start ++ str ", " ∷ []) ++ r) (loop-followed set name n (suc start)))
  | inr p ↦ rw p (loop-followed set name n (suc start))
]

drop_last-cons :
    (p : Piece) (t : Pieces) (q : Piece) (u : Pieces)
    → drop_last (p ∷ t ++ q ∷ u) ≡ p ∷ drop_last (t ++ q ∷ u)
drop_last-cons p [] q u = refl
drop_last-cons p (x ∷ t) q u = refl

drop_last-append :
    (t : Pieces) (q : Piece) (u : Pieces) → drop_last (t ++ q ∷ u) ≡ t ++ drop_last (q ∷ u)
drop_last-append [] q u = refl
drop_last-append (p ∷ t) q u = drop_last-cons p t q u ∙ ap (λ r. p ∷ r) (drop_last-append t q u)

snoc-append : (t : Pieces) (q : Piece) (u : Pieces) → (t ++ q ∷ []) ++ u ≡ t ++ q ∷ u
snoc-append [] q u = refl
snoc-append (p ∷ t) q u = ap (λ r. p ∷ r) (snoc-append t q u)

drop-followed :
    (s : Piece) (u : Pieces) (ts : List Pieces)
    → drop_last (s ∷ followed s (u ∷ ts)) ≡ s ∷ drop_last (followed s (u ∷ ts))
drop-followed s u ts =
    ap (λ r. drop_last (s ∷ r)) (snoc-append u s (followed s ts))
    ∙ drop_last-cons s u s (followed s ts)
    ∙ ap (λ r. s ∷ drop_last r) (sym (snoc-append u s (followed s ts)))

cut : (s : Piece) (ts : List Pieces) → drop_last (followed s ts) ≡ separated s ts
cut s [] = refl
cut s (t ∷ []) = ap drop_last (append-nil (t ++ s ∷ [])) ∙ drop_last-append t s [] ∙ append-nil t
cut s (t ∷ u ∷ ts) =
    ap drop_last (snoc-append t s (followed s (u ∷ ts)))
    ∙ drop_last-append t s (followed s (u ∷ ts))
    ∙ ap (λ r. t ++ r) (drop-followed s u ts ∙ ap (λ r. s ∷ r) (cut s (u ∷ ts)))

-- `signal_set` prints the signals of the set below SIGRTMAX in their order, with commas between them.
pub signal_set_lem :
    (rt_min rt_max : ℕ) (set : ℕ → Bool)
    → signal_set rt_min rt_max set
      ≡ str "{"
          ∷ separated (str ", ") (map (signal rt_min rt_max) (keep_if set (upto (rt_max - 1) 1)))
        ++ str "}" ∷ []
unfolding signal_set
signal_set_lem rt_min rt_max set =
    ap (λ r. str "{" ∷ r ++ str "}" ∷ [])
      (ap drop_last (loop-followed set (signal rt_min rt_max) (rt_max - 1) 1)
        ∙ cut (str ", ") (map (signal rt_min rt_max) (keep_if set (upto (rt_max - 1) 1))))

abbrev pub name_of : ℕ × String → Pieces
name_of f = str f.1 ∷ []

checked-preceded :
    (fs : List (ℕ × String)) (flags : ℕ)
    → chk_sa_flags fs flags false
      ≡ preceded (str "|") (map name_of (keep_if (λ f. has_bit flags f.0) fs))
unfolding chk_sa_flags
checked-preceded [] flags = refl
checked-preceded (f ∷ fs) flags = elim (Bool-cases (has_bit flags f.0)) [
  | inl p ↦ rw p (ap (λ r. str "|" ∷ str f.1 ∷ r) (checked-preceded fs flags))
  | inr p ↦ rw p (checked-preceded fs flags)
]

preceded-separated :
    (s : Piece) (t : Pieces) (ts : List Pieces) → t ++ preceded s ts ≡ separated s (t ∷ ts)
preceded-separated s t [] = append-nil t
preceded-separated s t (u ∷ ts) = ap (λ r. t ++ s ∷ r) (preceded-separated s u ts)

checked-separated :
    (fs : List (ℕ × String)) (flags : ℕ)
    → chk_sa_flags fs flags true
      ≡ separated (str "|") (map name_of (keep_if (λ f. has_bit flags f.0) fs))
unfolding chk_sa_flags
checked-separated [] flags = refl
checked-separated (f ∷ fs) flags = elim (Bool-cases (has_bit flags f.0)) [
  | inl p ↦ rw p (
      ap (λ r. str f.1 ∷ r) (checked-preceded fs flags)
      ∙ preceded-separated (str "|") (str f.1 ∷ [])
          (map name_of (keep_if (λ g. has_bit flags g.0) fs)))
  | inr p ↦ rw p (checked-separated fs flags)
]

-- `saflags` prints 0 for no flags, and else the names of the flags that are set, in the order of the
-- table and with bars between them.
pub saflags_lem :
    (flags : ℕ)
    → saflags flags ≡ (
        if flags == 0
        then str "0" ∷ []
        else separated (str "|") (map name_of (keep_if (λ f. has_bit flags f.0) sa_flags)))
unfolding saflags
saflags_lem flags = rw (checked-separated sa_flags flags) refl

-- The bits from `bit` on.
abbrev pub bits : ℕ → ℕ → List ℕ
bits zero bit = []
bits (suc n) bit = bit ∷ bits n (bit * 2)

abbrev pub event_of : ℕ → Pieces
event_of bit = poll_event bit ∷ []

poll-preceded :
    (n bit events : ℕ)
    → 1 < bit
    → poll_loop n bit events
      ≡ preceded (str "|") (map event_of (keep_if (λ b. has_bit events b) (bits n bit)))
unfolding poll_loop
poll-preceded zero bit events h = refl
poll-preceded (suc n) bit events h =
    let other = ≢→==_false bit 1 (omega arith) in
    elim (Bool-cases (has_bit events bit)) [
      | inl p ↦
          rw (p, other)
            (ap (λ r. str "|" ∷ poll_event bit ∷ r)
              (poll-preceded n (bit * 2) events (omega arith)))
      | inr p ↦ rw p (poll-preceded n (bit * 2) events (omega arith))
    ]

poll-first :
    (n events : ℕ)
    → poll_loop (suc n) 1 events ≡ (
        if has_bit events 1
        then separated (str "|") (map event_of (keep_if (λ b. has_bit events b) (bits (suc n) 1)))
        else preceded (str "|") (map event_of (keep_if (λ b. has_bit events b) (bits (suc n) 1))))
unfolding poll_loop
poll-first n events = elim (Bool-cases (has_bit events 1)) [
  | inl p ↦ rw p (
      ap (λ r. poll_event 1 ∷ r) (poll-preceded n 2 events (omega arith))
      ∙ preceded-separated (str "|") (event_of 1)
          (map event_of (keep_if (λ b. has_bit events b) (bits n 2))))
  | inr p ↦ rw p (poll-preceded n 2 events (omega arith))
]

-- `poll_events` prints the set events in the order of their bits, with bars between them where POLLIN
-- is set. Where it is not, a bar stands in front of every event, also of the first.
pub poll_events_lem :
    (events : ℕ)
    → poll_events events ≡ (
        if has_bit events 1
        then separated (str "|") (map event_of (keep_if (λ b. has_bit events b) (bits 15 1)))
        else preceded (str "|") (map event_of (keep_if (λ b. has_bit events b) (bits 15 1))))
unfolding poll_events
poll_events_lem events = poll-first 14 events

-- The limit can be read back from its text.
abbrev pub limit_value : Limit → ℕ
limit_value infinity = rlim_infinity
limit_value (times_1024 n) = n * 1024
limit_value (plain n) = n

pub limit_value-limit : (lim : ℕ) → limit_value (limit lim) ≡ lim
unfolding limit
limit_value-limit lim = ground arith
