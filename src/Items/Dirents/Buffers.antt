-- ===== src/Items/Dirents/Buffers.antt =====
-- Buffers of records, parsed by parseEntries32 and parseEntries64.
use clues.Common.{
  ℕ, zero, suc, ◌≡◌, refl, ap, ◌∙◌, ◌+◌, ◌<◌, ◌≤◌, ltb, arith, false, List, [], ◌∷◌, ◌++◌, map,
  drop, length, All,
}
use clues.Items.Dirents.{
  Dirent, d_reclen, name_offset, name64_offset, entry32, entry64, entries, with_entry, parse_loop,
  parse_entries32, parse_entries64,
}
use clues.Items.Dirents.Bytes.{le, length-append, drop-append, drop-add}
use clues.Items.Dirents.Encoded.{
  Written, name_of, meant32, meant64, length32, length64, written32, written64, Fits, buffer32,
  buffer64, header, header_length, skipped, entry32_lem, entry64_lem,
}

≤→ltb_false : (a b : ℕ) → a ≤ b → ltb b a ≡ false
≤→ltb_false a b h = ground arith

-- One round of the loop at a record that is all in the buffer.
parse_step :
    (entry : ℕ → List ℕ → Dirent) (size fixed fuel len : ℕ) (cur : List ℕ)
    → d_reclen size cur ≡ len
    → 0 < len
    → fixed ≤ len
    → len ≤ length cur
    → parse_loop entry size fixed (suc fuel) cur
      ≡ with_entry (entry size cur) (parse_loop entry size fixed fuel (drop len cur))
unfolding parse_loop
parse_step entry size fixed fuel len [] e h f l = absurd (omega arith)
parse_step entry size fixed fuel len (b ∷ bs) e h f l =
    rw (e, ≤→ltb_false fixed len f, ≤→ltb_false len (length (b ∷ bs)) l) refl

-- What a record of the three first members and a rest takes up.
whole :
    (size a b len n : ℕ) (u : List ℕ)
    → n ≤ length u
    → size + (size + (2 + n)) ≤ length (le size a ++ (le size b ++ (le 2 len ++ u)))
whole size a b len n u h = rw (header_length size a b len u) (omega arith)

named_length :
    (w : Written) (y u : List ℕ)
    → length (name_of w ++ (y ++ u)) ≡ length (name_of w) + (length y + length u)
named_length w y u =
    length-append (name_of w) (y ++ u) ∙ ap (λ r. length (name_of w) + r) (length-append y u)

named_drop :
    (w : Written) (y : List ℕ) (n : ℕ) (u : List ℕ)
    → drop (length (name_of w) + (length y + n)) (name_of w ++ (y ++ u)) ≡ drop n u
named_drop w y n u =
    drop-add (length (name_of w)) (length y + n) (name_of w ++ (y ++ u))
    ∙ ap (drop (length y + n)) (drop-append (name_of w) (y ++ u))
    ∙ drop-add (length y) n (y ++ u)
    ∙ ap (drop n) (drop-append y u)

step32 :
    (size fuel : ℕ) (w : Written) (rest : List ℕ)
    → Fits size (length32 size w) w
    → parse_entries32 size (suc fuel) (written32 size w rest)
      ≡ with_entry (meant32 w) (parse_entries32 size fuel rest)
unfolding parse_entries32
step32 size fuel w rest f =
    let behind = name_of w ++ ((0 ∷ w.padding) ++ w.type ∷ rest) in
    let h = header size w.inode w.offset (length32 size w) behind f.0 f.1 f.2 in
    let long : length (name_of w) + (suc (length w.padding) + 1) ≤ length behind =
      rw (named_length w (0 ∷ w.padding) (w.type ∷ rest)) (omega arith) in
    parse_step entry32 size (name_offset size + 2) fuel (length32 size w) (written32 size w rest)
      h.2 (omega arith) (omega arith)
      (whole size w.inode w.offset (length32 size w)
        (length (name_of w) + (suc (length w.padding) + 1)) behind long)
    ∙ ap
        (λ e.
          with_entry e (parse_entries32 size fuel (drop (length32 size w) (written32 size w rest))))
        (entry32_lem size w rest f)
    ∙ ap (λ r. with_entry (meant32 w) (parse_entries32 size fuel r))
        (skipped size w.inode w.offset (length32 size w)
            (length (name_of w) + (suc (length w.padding) + 1)) behind
          ∙ named_drop w (0 ∷ w.padding) 1 (w.type ∷ rest))

record_drop :
    (w : Written) (rest : List ℕ)
    → drop
        (1 + (length (name_of w) + suc (length w.padding)))
        (w.type ∷ (name_of w ++ ((0 ∷ w.padding) ++ rest)))
      ≡ rest
record_drop w rest =
    let behind = name_of w ++ ((0 ∷ w.padding) ++ rest) in
    let all : length (name_of w) + suc (length w.padding)
        ≡ length (name_of w) + (suc (length w.padding) + 0) =
      omega arith in
    drop-add 1 (length (name_of w) + suc (length w.padding)) (w.type ∷ behind)
    ∙ ap (λ n. drop n behind) all
    ∙ named_drop w (0 ∷ w.padding) 0 rest

step64 :
    (fuel : ℕ) (w : Written) (rest : List ℕ)
    → Fits 8 (length64 w) w
    → parse_entries64 (suc fuel) (written64 w rest)
      ≡ with_entry (meant64 w) (parse_entries64 fuel rest)
unfolding parse_entries64
step64 fuel w rest f =
    let behind = w.type ∷ (name_of w ++ ((0 ∷ w.padding) ++ rest)) in
    let h = header 8 w.inode w.offset (length64 w) behind f.0 f.1 f.2 in
    let named = named_length w (0 ∷ w.padding) rest in
    let long : 1 + (length (name_of w) + suc (length w.padding)) ≤ length behind = omega arith in
    parse_step (λ size. entry64) 8 name64_offset fuel (length64 w) (written64 w rest) h.2
      (omega arith) (omega arith)
      (whole 8 w.inode w.offset (length64 w) (1 + (length (name_of w) + suc (length w.padding)))
        behind long)
    ∙ ap (λ e. with_entry e (parse_entries64 fuel (drop (length64 w) (written64 w rest))))
        (entry64_lem w rest f)
    ∙ ap (λ r. with_entry (meant64 w) (parse_entries64 fuel r))
        (skipped 8 w.inode w.offset (length64 w) (1 + (length (name_of w) + suc (length w.padding)))
            behind
          ∙ record_drop w rest)

-- Every buffer of records that getdents() has written is parsed to just these entries, as they are read,
-- with as much fuel as there are records and one more round: for structs of four and of eight bytes in each member.
pub parse_entries32_lem :
    (size fuel : ℕ) (ws : List Written)
    → All (λ w. Fits size (length32 size w) w) ws
    → length ws < fuel
    → parse_entries32 size fuel (buffer32 size ws) ≡ entries (map meant32 ws)
unfolding parse_entries32 parse_loop
parse_entries32_lem size zero ws f l = absurd (omega arith)
parse_entries32_lem size (suc fuel) [] f l = refl
parse_entries32_lem size (suc fuel) (w ∷ ws) f l =
    step32 size fuel w (buffer32 size ws) f.0
    ∙ ap (with_entry (meant32 w)) (parse_entries32_lem size fuel ws f.1 (omega arith))

-- The same holds of getdents64().
pub parse_entries64_lem :
    (fuel : ℕ) (ws : List Written)
    → All (λ w. Fits 8 (length64 w) w) ws
    → length ws < fuel
    → parse_entries64 fuel (buffer64 ws) ≡ entries (map meant64 ws)
unfolding parse_entries64 parse_loop
parse_entries64_lem zero ws f l = absurd (omega arith)
parse_entries64_lem (suc fuel) [] f l = refl
parse_entries64_lem (suc fuel) (w ∷ ws) f l =
    step64 fuel w (buffer64 ws) f.0
    ∙ ap (with_entry (meant64 w)) (parse_entries64_lem fuel ws f.1 (omega arith))
