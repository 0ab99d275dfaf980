-- ===== src/Memory/Blobs.antt =====
-- What readBlob and readStruct return.
use mathlib.Core.List.{append_assoc, append-nil}
use clues.Common.{
  ℕ, zero, suc, ◌+◌, ◌-◌, ◌*◌, ◌≤◌, ◌<◌, ◌≡◌, refl, sym, ap, subst, ◌⊎◌, ◌↔◌, dec_lt, true, false,
  none, List, [], ◌∷◌, ◌++◌, arith, ◌==◌, if◌then◌else◌, take, length, min, inl, inr, Bool-cases,
}
use native.Mathlib.Nat.{zero-add, suc-add}
use clues.Memory.{
  Peek, Read, finished, failed, word_size, increment, fill_data, Blob, fill_blob, read_blob,
  refused, errno_io, no_pointer, value, unfinished, into_optional, struct_result,
  read_struct_into_optional,
}
use clues.Memory.Vectors.{Holds}

-- The bytes of words of eight bytes each.
abbrev pub all_bytes : List (List ℕ) → List ℕ
all_bytes [] = []
all_bytes (w ∷ ws) = w ++ all_bytes ws

abbrev pub AreWords : List (List ℕ) → Type 0
AreWords [] = Unit {0}
AreWords (w ∷ ws) = (length w ≡ word_size) × AreWords ws

take_all : (n : ℕ) (w ys : List ℕ) → length w ≡ n → take n (w ++ ys) ≡ w
take_all zero [] ys e = refl
take_all zero (x ∷ w) ys e = absurd (omega arith)
take_all (suc n) [] ys e = absurd (omega arith)
take_all (suc n) (x ∷ w) ys e = ground (arith, take_all n w ys)

take_short : (n : ℕ) (w ys : List ℕ) → n ≤ length w → take n (w ++ ys) ≡ take n w
take_short zero w ys h = refl
take_short (suc n) [] ys h = absurd (omega arith)
take_short (suc n) (x ∷ w) ys h = ground (arith, take_short n w ys)

take_past : (n : ℕ) (w ys : List ℕ) → take (length w + n) (w ++ ys) ≡ w ++ take n ys
take_past n [] ys = rw zero-add
take_past n (x ∷ w) ys = rw suc-add (ap (◌∷◌ x) (take_past n w ys))

take_word :
    (left : ℕ) (w ys : List ℕ)
    → length w ≡ word_size
    → word_size < left
    → take left (w ++ ys) ≡ w ++ take (left - word_size) ys
take_word left w ys e h =
    let split : left ≡ length w + (left - word_size) = omega arith in
    subst (λ n. take n (w ++ ys) ≡ w ++ take (left - word_size) ys) (sym split)
      (take_past (left - word_size) w ys)

fill_blob-last :
    (w : List ℕ) (s : Blob)
    → s.left ≤ word_size
    → fill_blob w s ≡ (record { left = 0; buffer = s.buffer ++ take s.left w }, false)
unfolding fill_blob
fill_blob-last w s h =
    let all : min word_size s.left ≡ s.left = omega arith in
    let none_left : s.left - s.left ≡ 0 = omega arith in rw (all, none_left)

fill_blob-word :
    (w : List ℕ) (s : Blob)
    → length w ≡ word_size
    → word_size < s.left
    → fill_blob w s ≡ (record { left = s.left - word_size; buffer = s.buffer ++ w }, true)
unfolding fill_blob
fill_blob-word w s e h = ground (arith, take_all word_size w [] e, append-nil w)

fill_data-blob :
    (peek : ℕ → Peek) (ws : List (List ℕ)) (fuel addr : ℕ) (s : Blob)
    → Holds peek addr ws
    → AreWords ws
    → length ws ≤ fuel
    → 0 < s.left
    → s.left ≤ word_size * length ws
    → fill_data peek fill_blob fuel addr s
      ≡ finished (record { left = 0; buffer = s.buffer ++ take s.left (all_bytes ws) })
unfolding fill_data
fill_data-blob peek [] fuel addr s h a l p e = absurd (omega arith)
fill_data-blob peek (w ∷ ws) zero addr s h a l p e = absurd (omega arith)
fill_data-blob peek (w ∷ ws) (suc fuel) addr s h a l p e = elim (dec_lt word_size s.left) [
  | yes more ↦ ground (
    arith,
    fill_blob-word w s a.0 more,
    take_word s.left w (all_bytes ws) a.0 more,
    append_assoc s.buffer w (take (s.left - word_size) (all_bytes ws)),
    fill_data-blob peek ws fuel (increment word_size addr)
        (record { left = s.left - word_size; buffer = s.buffer ++ w }) h.1 a.1,
  )
  | no last ↦ ground (arith, fill_blob-last w s, take_short s.left w (all_bytes ws))
]

-- If the words from `addr` on hold at least `bytes` bytes, and `bytes` is not 0, then readBlob fills
-- the buffer with exactly the first `bytes` of them.
pub read_blob_lem :
    (peek : ℕ → Peek) (fuel addr bytes : ℕ) (ws : List (List ℕ))
    → Holds peek addr ws
    → AreWords ws
    → length ws ≤ fuel
    → 0 < bytes
    → bytes ≤ word_size * length ws
    → read_blob peek fuel addr bytes
      ≡ finished (record { left = 0; buffer = take bytes (all_bytes ws) })
unfolding read_blob
read_blob_lem peek fuel addr bytes ws h a l p e =
    fill_data-blob peek ws fuel addr (record { left = bytes; buffer = [] }) h a l p e

-- readStructIntoOptional leaves the optional empty and answers false exactly for a null pointer and for
-- memory whose read ends in EIO.
pub read_struct_into_optional_lem :
    (peek : ℕ → Peek) (fuel addr bytes : ℕ)
    → (read_struct_into_optional peek fuel addr bytes ≡ value none false)
      ↔ ((addr ≡ no_pointer) ⊎ ((b : Blob) × (read_blob peek fuel addr bytes ≡ failed errno_io b)))
unfolding read_struct_into_optional
read_struct_into_optional_lem peek fuel addr bytes = (to, from)
  where
    split :
        (r : Read Blob)
        → read_blob peek fuel addr bytes ≡ r
        → into_optional (if addr == no_pointer then refused else struct_result r) ≡ value none false
        → (addr ≡ no_pointer) ⊎ ((b : Blob) × (read_blob peek fuel addr bytes ≡ failed errno_io b))
    split (finished b) e h = ground arith
    split (unfinished b) e h = ground arith
    split (failed x b) e h = elim (Bool-cases (x == errno_io)) [
      | inl io ↦ inr (b, ground arith)
      | inr other ↦ ground arith
    ]

    to :
        read_struct_into_optional peek fuel addr bytes ≡ value none false
        → (addr ≡ no_pointer) ⊎ ((b : Blob) × (read_blob peek fuel addr bytes ≡ failed errno_io b))
    to = split (read_blob peek fuel addr bytes) refl

    from :
        (addr ≡ no_pointer) ⊎ ((b : Blob) × (read_blob peek fuel addr bytes ≡ failed errno_io b))
        → read_struct_into_optional peek fuel addr bytes ≡ value none false
    from (inl null) = ground arith
    from (inr (b, e)) = ground arith
