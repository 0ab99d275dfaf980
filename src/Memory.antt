-- ===== src/Memory.antt =====
-- Reading the memory of a tracee: the fillers, fillData, readVector, readString and readBlob of
-- src/Tracee.cxx, readStruct, readStructIntoOptional and readStructs of include/Tracee.hxx, and
-- ForeignPtr of include/types.hxx. A word is the list of its eight bytes, the lowest address first.
pub mod Vectors
pub mod Blobs
use clues.Common.{
  ℕ, zero, suc, ◌+◌, ◌-◌, ◌*◌, ◌/◌, ◌%◌, ◌^◌, Bool, true, false, ◌&&◌, not, Option, none, some,
  List, [], ◌∷◌, ◌++◌, ◌==◌, if◌then◌else◌, take, drop, length, min,
}

-- What PTRACE_PEEKDATA answers: a word, or the errno of an ApiError.
pub data Peek : Type 0 where
  word : List ℕ → Peek
  error : ℕ → Peek

-- How a read ends. An ApiError leaves behind what was read so far.
pub data Read {ℓ} (S : Type ℓ) : Type ℓ where
  finished : S → Read S
  failed : ℕ → S → Read S
  unfinished : S → Read S

abbrev pub word_size : ℕ
word_size = 8

-- sizeof of a machine word's range: size_t and uintptr_t have 64 bits.
abbrev pub size_mod : ℕ
size_mod = 2 ^ 64

-- `operator++` and `increment`: on to the next word, and on by the size of an item.
unfoldable pub increment : ℕ → ℕ → ℕ
increment size ptr = (ptr + size) % size_mod

-- A zero pointer is ForeignPtr::NO_POINTER.
abbrev pub no_pointer : ℕ
no_pointer = 0

-- Tracee::getData and Tracee::fillData, on fuel: one word for each round.
module _ {ℓ} {S : Type ℓ} (peek : ℕ → Peek) (filler : List ℕ → S → S × Bool) where
  unfoldable pub fill_data : ℕ → ℕ → S → Read S
  unfolding increment
  fill_data zero addr s = unfinished s
  fill_data (suc fuel) addr s = elim (peek addr) [
    | error e ↦ failed e s
    | word w ↦ elim (filler w s).1 [
      | true ↦ fill_data fuel (increment word_size addr) (filler w s).0
      | false ↦ finished (filler w s).0
    ]
  ]

-- The items of a word, `size` bytes each, as little endian numbers.
unfoldable pub number : List ℕ → ℕ
number [] = 0
number (b ∷ bs) = b + 256 * number bs

unfoldable pub items : ℕ → ℕ → List ℕ → List ℕ
unfolding number
items size zero w = []
items size (suc n) w = number (take size w) ∷ items size n (drop size w)

-- ContainerFiller: its constant members, and its state.
pub record FillConfig : Type 0 where
  pub max : ℕ
  pub stop_at_zero : Bool

pub record Container : Type 0 where
  pub content : List ℕ
  pub filled : ℕ

-- The loop of `operator()` over the items of a word.
unfoldable pub fill_items : FillConfig → List ℕ → Container → Container × Bool
fill_items c [] s = (s, true)
fill_items c (x ∷ xs) s =
    let filled' = (s.filled + 1) % size_mod in
    let pushed : Container = record { content = s.content ++ x ∷ []; filled = filled' } in
    let rest = fill_items c xs pushed in
    if c.stop_at_zero && x == 0
    then (s, false)
    else if filled' == c.max
    then (pushed, false)
    else rest

-- `readVector` of items of `size` bytes; `readString` is the case of one byte.
unfoldable pub read_vector :
    (peek : ℕ → Peek) (fuel size addr : ℕ) (c : FillConfig) → Read Container
unfolding fill_data fill_items items
read_vector peek fuel size addr c =
    fill_data peek (λ w s. fill_items c (items size (word_size / size) w) s) fuel addr
      (record { content = []; filled = 0 })

unfoldable pub read_string : (peek : ℕ → Peek) (fuel addr max : ℕ) → Read Container
unfolding read_vector
read_string peek fuel addr max =
    read_vector peek fuel 1 addr (record { max = max; stop_at_zero = true })

-- BlobFiller: how many bytes are left, and what stands in the buffer.
pub record Blob : Type 0 where
  pub left : ℕ
  pub buffer : List ℕ

unfoldable pub fill_blob : List ℕ → Blob → Blob × Bool
fill_blob w s =
    let to_copy = min word_size s.left in
    (
      record { left = s.left - to_copy; buffer = s.buffer ++ take to_copy w },
      not (s.left - to_copy == 0),
    )

unfoldable pub read_blob : (peek : ℕ → Peek) (fuel addr bytes : ℕ) → Read Blob
unfolding fill_data fill_blob
read_blob peek fuel addr bytes =
    fill_data peek fill_blob fuel addr (record { left = bytes; buffer = [] })

-- The outcome of `readStruct`: filled in, refused with `false`, or an exception.
pub data StructResult : Type 0 where
  filled_in : List ℕ → StructResult
  refused : StructResult
  thrown : ℕ → StructResult
  starved : StructResult

abbrev pub errno_io : ℕ
errno_io = 5

abbrev pub struct_result : Read Blob → StructResult
struct_result (finished b) = filled_in b.buffer
struct_result (failed e b) = if e == errno_io then refused else thrown e
struct_result (unfinished b) = starved

unfoldable pub read_struct : (peek : ℕ → Peek) (fuel addr max_bytes : ℕ) → StructResult
read_struct peek fuel addr max_bytes =
    if addr == no_pointer then refused else struct_result (read_blob peek fuel addr max_bytes)

-- `readStructIntoOptional`: the optional and the result, or the exception.
pub data OptionalRead : Type 0 where
  value : Option (List ℕ) → Bool → OptionalRead
  throws : ℕ → OptionalRead
  no_fuel : OptionalRead

abbrev pub into_optional : StructResult → OptionalRead
into_optional (filled_in b) = value (some b) true
into_optional refused = value none false
into_optional (thrown e) = throws e
into_optional starved = no_fuel

unfoldable pub read_struct_into_optional :
    (peek : ℕ → Peek) (fuel addr max_bytes : ℕ) → OptionalRead
unfolding read_struct
read_struct_into_optional peek fuel addr max_bytes =
    into_optional (read_struct peek fuel addr max_bytes)
