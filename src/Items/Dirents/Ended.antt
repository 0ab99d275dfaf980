-- ===== src/Items/Dirents/Ended.antt =====
-- The end of the parsing, and updateData as a whole.
use mathlib.Core.List.{append-nil}
use clues.Common.{
  ℕ, suc, ◌≡◌, ◌≢◌, refl, ap, sym, ◌<◌, ◌≤◌, arith, Bool, true, false, some, List, [], ◌∷◌, ◌++◌,
  map, take, ≢→==_false, ◌*◌, length, All,
}
use clues.Items.Dirents.{Dirent, Parsed, entries, no_fuel, update_entries, parse_by}
use clues.Items.Dirents.Encoded.{
  Written, meant32, meant64, name_of, Fits, length32, length64, buffer32, buffer64,
}
use clues.Items.Dirents.Bytes.{c_string, c_string-name}
use clues.Items.Dirents.Buffers.{parse_entries32_lem, parse_entries64_lem}
use clues.Memory.{Peek, word_size}
use clues.Memory.Vectors.{Holds}
use clues.Memory.Blobs.{AreWords, all_bytes, read_blob_lem}

abbrev out_of_fuel : Parsed → Bool
out_of_fuel no_fuel = true
out_of_fuel p = false

-- The buffer that the kernel fills for the call and the ABI, and what makes its records well formed.
abbrev pub kernel_buffer : Bool → Bool → List Written → List ℕ
kernel_buffer true emulated ws = buffer64 ws
kernel_buffer false true ws = buffer32 4 ws
kernel_buffer false false ws = buffer32 8 ws

abbrev pub AllFit : Bool → Bool → List Written → Type 0
AllFit true emulated ws = All (λ w. Fits 8 (length64 w) w) ws
AllFit false true ws = All (λ w. Fits 4 (length32 4 w) w) ws
AllFit false false ws = All (λ w. Fits 8 (length32 8 w) w) ws

-- The words `m` stand at `ptr`, and the buffer is their beginning.
abbrev pub InMemory : (ℕ → Peek) → ℕ → List (List ℕ) → List ℕ → Type 0
InMemory peek ptr m buffer =
    Holds peek ptr m
    × AreWords m
    × (take (length buffer) (all_bytes m) ≡ buffer)
    × (length buffer ≤ word_size * length m)

from_read :
    (peek : ℕ → Peek) (fuel ptr : ℕ) (is64 emulated : Bool) (old es : List Dirent)
    (m : List (List ℕ)) (buffer : List ℕ)
    → InMemory peek ptr m buffer
    → length m ≤ fuel
    → parse_by is64 emulated fuel buffer ≡ entries es
    → 0 < length buffer
    → update_entries peek fuel ptr is64 emulated old (some (length buffer)) ≡ entries (old ++ es)
unfolding update_entries
from_read peek fuel ptr is64 emulated old es m buffer h l p q =
    rw
      (
        ≢→==_false (length buffer) 0 (omega arith),
        read_blob_lem peek fuel ptr (length buffer) m h.0 h.1 l q h.3,
        h.2,
        p,
      )
      refl

none_written :
    (peek : ℕ → Peek) (fuel ptr : ℕ) (is64 emulated : Bool) (old : List Dirent)
    → update_entries peek fuel ptr is64 emulated old (some 0) ≡ entries (old ++ [])
unfolding update_entries
none_written peek fuel ptr is64 emulated old = ap entries (sym (append-nil old))

-- The entries as they are read.
abbrev pub read_entries : Bool → List Written → List Dirent
read_entries true ws = map meant64 ws
read_entries false ws = map meant32 ws

ap2_cons : {a b : List ℕ} {x y : List (List ℕ)} → a ≡ b → x ≡ y → a ∷ x ≡ b ∷ y
ap2_cons p q = λ i. p i ∷ q i

names_begin :
    (is64 : Bool) (ws : List Written)
    → All (λ w. All (λ b. b ≢ 0) (name_of w)) ws
    → map (λ d. c_string d.name) (read_entries is64 ws) ≡ map name_of ws
names_begin true [] h = refl
names_begin true (w ∷ ws) h =
    ap2_cons (c_string-name (name_of w) w.padding (suc (length w.padding)) h.0)
      (names_begin true ws h.1)
names_begin false [] h = refl
names_begin false (w ∷ ws) h =
    ap2_cons (c_string-name (name_of w) w.padding (length w.padding) h.0) (names_begin false ws h.1)

without_zeros :
    (is64 emulated : Bool) (ws : List Written)
    → AllFit is64 emulated ws
    → All (λ w. All (λ b. b ≢ 0) (name_of w)) ws
without_zeros is64 emulated [] f = tt
without_zeros true emulated (w ∷ ws) f = (f.0.3, without_zeros true emulated ws f.1)
without_zeros false true (w ∷ ws) f = (f.0.3, without_zeros false true ws f.1)
without_zeros false false (w ∷ ws) f = (f.0.3, without_zeros false false ws f.1)

decoded :
    (peek : ℕ → Peek) (fuel ptr : ℕ) (is64 emulated : Bool) (old : List Dirent) (ws : List Written)
    (m : List (List ℕ))
    → AllFit is64 emulated ws
    → InMemory peek ptr m (kernel_buffer is64 emulated ws)
    → length m ≤ fuel
    → length ws < fuel
    → update_entries peek fuel ptr is64 emulated old
        (some (length (kernel_buffer is64 emulated ws)))
      ≡ entries (old ++ read_entries is64 ws)
decoded peek fuel ptr true emulated old [] m f h l n = none_written peek fuel ptr true emulated old
decoded peek fuel ptr false true old [] m f h l n = none_written peek fuel ptr false true old
decoded peek fuel ptr false false old [] m f h l n = none_written peek fuel ptr false false old
decoded peek fuel ptr true emulated old (w ∷ ws) m f h l n =
    from_read peek fuel ptr true emulated old (map meant64 (w ∷ ws)) m (buffer64 (w ∷ ws)) h l
      (parse_entries64_lem fuel (w ∷ ws) f n) (omega arith)
decoded peek fuel ptr false true old (w ∷ ws) m f h l n =
    from_read peek fuel ptr false true old (map meant32 (w ∷ ws)) m (buffer32 4 (w ∷ ws)) h l
      (parse_entries32_lem 4 fuel (w ∷ ws) f n) (omega arith)
decoded peek fuel ptr false false old (w ∷ ws) m f h l n =
    from_read peek fuel ptr false false old (map meant32 (w ∷ ws)) m (buffer32 8 (w ∷ ws)) h l
      (parse_entries32_lem 8 fuel (w ∷ ws) f n) (omega arith)

-- After getdents() or getdents64() of any ABI one entry for each record stands behind those that were
-- there, with its inode number, offset and type, and nothing changes where the call wrote none. The name
-- of an entry is the record's, and behind it the zero that ends it and the bytes of the record up to the
-- last one that is not zero, where there is one among those that are looked at: cut at its first zero,
-- each name is the record's.
pub update_entries_lem :
    (peek : ℕ → Peek) (fuel ptr : ℕ) (is64 emulated : Bool) (old : List Dirent) (ws : List Written)
    (m : List (List ℕ))
    → AllFit is64 emulated ws
    → InMemory peek ptr m (kernel_buffer is64 emulated ws)
    → length m ≤ fuel
    → length ws < fuel
    → (update_entries peek fuel ptr is64 emulated old
          (some (length (kernel_buffer is64 emulated ws)))
        ≡ entries (old ++ read_entries is64 ws))
      × (map (λ d. c_string d.name) (read_entries is64 ws) ≡ map name_of ws)
update_entries_lem peek fuel ptr is64 emulated old ws m f h l n = (
  decoded peek fuel ptr is64 emulated old ws m f h l n,
  names_begin is64 ws (without_zeros is64 emulated ws f),
)
