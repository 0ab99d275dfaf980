-- ===== src/Items/Dirents/Bytes.antt =====
-- Taking and dropping at the border of little endian numbers and names.
use clues.Common.{
  ℕ, zero, suc, ◌≡◌, refl, ap, ◌∙◌, ◌+◌, ◌/◌, ◌%◌, ◌^◌, ◌<◌, ◌≢◌, arith, List, [], ◌∷◌, ◌++◌, take,
  drop, length, All, Bool-cases, inl, inr, ==_iff, ◌≤◌, ≢→==_false, if◌then◌else◌, ◌==◌,
}
use clues.Memory.{number}
use clues.Items.Dirents.{byte_at, unpadded}

-- A number in `n` bytes, the lowest first.
abbrev pub le : ℕ → ℕ → List ℕ
le zero x = []
le (suc n) x = x % 256 ∷ le n (x / 256)

pub number-le : (n x : ℕ) → x < 256 ^ n → number (le n x) ≡ x
unfolding number
number-le zero x h = omega arith
number-le (suc n) x h = let k = number-le n (x / 256) (omega arith) in rw k (omega arith)

pub take-le : (n x : ℕ) (u : List ℕ) → take n (le n x ++ u) ≡ le n x
take-le zero x u = refl
take-le (suc n) x u = ap (λ r. x % 256 ∷ r) (take-le n (x / 256) u)

pub drop-le : (n x : ℕ) (u : List ℕ) → drop n (le n x ++ u) ≡ u
drop-le zero x u = refl
drop-le (suc n) x u = drop-le n (x / 256) u

pub length-le : (n x : ℕ) (u : List ℕ) → length (le n x ++ u) ≡ n + length u
length-le zero x u = omega arith
length-le (suc n) x u = let k = length-le n (x / 256) u in omega arith

pub take-append : (t u : List ℕ) → take (length t) (t ++ u) ≡ t
take-append [] u = refl
take-append (c ∷ t) u = ap (λ r. c ∷ r) (take-append t u)

pub drop-append : (t u : List ℕ) → drop (length t) (t ++ u) ≡ u
drop-append [] u = refl
drop-append (c ∷ t) u = drop-append t u

pub length-append : (t u : List ℕ) → length (t ++ u) ≡ length t + length u
length-append [] u = omega arith
length-append (c ∷ t) u = let k = length-append t u in omega arith

zero-plus : (b : ℕ) → 0 + b ≡ b
zero-plus b = omega arith

pub suc-plus : (a b : ℕ) → suc a + b ≡ suc (a + b)
suc-plus a b = omega arith

pub drop-add : (a b : ℕ) (u : List ℕ) → drop (a + b) u ≡ drop b (drop a u)
drop-add zero b u = rw (zero-plus b) refl
drop-add (suc a) zero [] = rw (suc-plus a zero) refl
drop-add (suc a) (suc b) [] = rw (suc-plus a (suc b)) refl
drop-add (suc a) b (c ∷ u) = rw (suc-plus a b) (drop-add a b u)

pub byte_at-drop : (a i : ℕ) (u : List ℕ) → byte_at (a + i) u ≡ byte_at i (drop a u)
byte_at-drop zero i u = rw (zero-plus i) refl
byte_at-drop (suc a) i [] = refl
byte_at-drop (suc a) i (c ∷ u) = rw (suc-plus a i) (byte_at-drop a i u)

abbrev joined : ℕ → List ℕ → List ℕ
joined b [] = if b == 0 then [] else b ∷ []
joined b (r ∷ rs) = b ∷ r ∷ rs

-- A list without the zeros at its end.
abbrev pub kept : List ℕ → List ℕ
kept [] = []
kept (b ∷ bs) = joined b (kept bs)

joined-nonzero : (b : ℕ) (r : List ℕ) → b ≢ 0 → joined b r ≡ b ∷ r
joined-nonzero b [] h = rw (≢→==_false b 0 h) refl
joined-nonzero b (x ∷ r) h = refl

joined-cons :
    (b : ℕ) (bs : List ℕ) (n : ℕ) → n < length bs → joined b (take (suc n) bs) ≡ b ∷ take (suc n) bs
joined-cons b [] n h = absurd (omega arith)
joined-cons b (c ∷ bs) n h = refl

kept-zero :
    (n : ℕ) (d : List ℕ) → n < length d → byte_at n d ≡ 0 → kept (take (suc n) d) ≡ kept (take n d)
kept-zero n [] h e = absurd (omega arith)
kept-zero zero (b ∷ bs) h e = rw e refl
kept-zero (suc n) (b ∷ bs) h e = ap (joined b) (kept-zero n bs (omega arith) e)

kept-nonzero :
    (n : ℕ) (d : List ℕ) → n < length d → byte_at n d ≢ 0 → kept (take (suc n) d) ≡ take (suc n) d
kept-nonzero n [] h e = absurd (omega arith)
kept-nonzero zero (b ∷ bs) h e = joined-nonzero b [] e
kept-nonzero (suc n) (b ∷ bs) h e =
    ap (joined b) (kept-nonzero n bs (omega arith) e) ∙ joined-cons b bs n (omega arith)

length-take : (n : ℕ) (d : List ℕ) → n ≤ length d → length (take n d) ≡ n
length-take zero d h = refl
length-take (suc n) [] h = absurd (omega arith)
length-take (suc n) (b ∷ d) h = ap suc (length-take n d (omega arith))

take-joined :
    (b : ℕ) (bs r : List ℕ)
    → take (length r) bs ≡ r
    → take (length (joined b r)) (b ∷ bs) ≡ joined b r
take-joined b bs (x ∷ r) e = ap (λ l. b ∷ l) e
take-joined b bs [] e = elim (Bool-cases (b == 0)) [ inl p ↦ rw p refl | inr p ↦ rw p refl ]

take-kept : (n : ℕ) (d : List ℕ) → take (length (kept (take n d))) d ≡ kept (take n d)
take-kept zero d = refl
take-kept (suc n) [] = refl
take-kept (suc n) (b ∷ d) = take-joined b d (kept (take n d)) (take-kept n d)

-- The loop that takes off the padding leaves what is kept behind the first byte.
unpadded-kept :
    (c n : ℕ) (d : List ℕ)
    → n ≤ length d
    → unpadded (suc n) (c ∷ d) ≡ suc (length (kept (take n d)))
unfolding unpadded
unpadded-kept c zero d h = refl
unpadded-kept c (suc n) d h = elim (Bool-cases (byte_at n d == 0)) [
  | inl p ↦
      rw (p, kept-zero n d (omega arith) ((==_iff (byte_at n d) 0).0 p))
        (unpadded-kept c n d (omega arith))
  | inr p ↦
      let other : byte_at n d ≢ 0 = λ e. absurd (ground (arith, e, p)) in
      rw (p, kept-nonzero n d (omega arith) other, length-take (suc n) d h) refl
]

kept-name : (t z : List ℕ) → All (λ b. b ≢ 0) t → kept (t ++ z) ≡ t ++ kept z
kept-name [] z a = refl
kept-name (c ∷ t) z a = ap (joined c) (kept-name t z a.1) ∙ joined-nonzero c (t ++ kept z) a.0

take-within :
    (t y v : List ℕ) (p : ℕ) → p ≤ length y → take (length t + p) (t ++ (y ++ v)) ≡ t ++ take p y
take-within [] y v p h = rw (zero-plus p) (front y v p h)
  where
    front : (y v : List ℕ) (p : ℕ) → p ≤ length y → take p (y ++ v) ≡ take p y
    front y v zero h = refl
    front [] v (suc p) h = absurd (omega arith)
    front (b ∷ y) v (suc p) h = ap (λ l. b ∷ l) (front y v p (omega arith))
take-within (c ∷ t) y v p h = rw (suc-plus (length t) p) (ap (λ l. c ∷ l) (take-within t y v p h))

-- A name without zeros, read with `p` of the bytes behind it: those of them stay that stand in front of
-- the last one that is not zero.
pub name_kept :
    (c : ℕ) (t y v : List ℕ) (p : ℕ)
    → All (λ b. b ≢ 0) t
    → p ≤ length y
    → take (unpadded (suc (length t + p)) (c ∷ (t ++ (y ++ v)))) (c ∷ (t ++ (y ++ v)))
      ≡ c ∷ (t ++ kept (take p y))
name_kept c t y v p a h =
    let long = length-append t (y ++ v) in
    let long2 = length-append y v in
    rw (unpadded-kept c (length t + p) (t ++ (y ++ v)) (omega arith)) (
      ap (λ l. c ∷ l)
        (take-kept (length t + p) (t ++ (y ++ v))
          ∙ ap kept (take-within t y v p h)
          ∙ kept-name t (take p y) a))

-- What a C string at the front of a text holds.
abbrev pub c_string : List ℕ → List ℕ
c_string [] = []
c_string (b ∷ bs) = let rest = c_string bs in if b == 0 then [] else b ∷ rest

c_string-joined : (r : List ℕ) → c_string (joined 0 r) ≡ []
c_string-joined [] = refl
c_string-joined (x ∷ r) = refl

c_string-kept : (p : ℕ) (pad : List ℕ) → c_string (kept (take p (0 ∷ pad))) ≡ []
c_string-kept zero pad = refl
c_string-kept (suc p) pad = c_string-joined (kept (take p pad))

-- Such bytes do not belong to the C string, where the first of them is zero.
pub c_string-name :
    (t pad : List ℕ) (p : ℕ) → All (λ b. b ≢ 0) t → c_string (t ++ kept (take p (0 ∷ pad))) ≡ t
c_string-name [] pad p a = c_string-kept p pad
c_string-name (c ∷ t) pad p a =
    rw (≢→==_false c 0 a.0) (ap (λ l. c ∷ l) (c_string-name t pad p a.1))
