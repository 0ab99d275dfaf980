-- ===== src/Items/Dirents.antt =====
-- The directory entries of getdents() and getdents64(): DirEntries of src/items/fs.cxx and its structs in
-- src/clues/private/kernel/dirent.hxx. A buffer is the list of its bytes from the current position on.
pub mod Bytes
pub mod Encoded
pub mod Buffers
pub mod Ended
use clues.Common.{
  ℕ, zero, suc, ◌+◌, ◌*◌, ◌-◌, Bool, true, false, ◌==◌, ◌||◌, ltb, Option, none, some, List, [],
  ◌∷◌, ◌++◌, if◌then◌else◌, take, drop, length,
}
use clues.Memory.{Peek, Read, finished, failed, unfinished, Blob, number, read_blob}

-- DirEntries::Entry. The offset stands as its 64 bits.
pub record Dirent : Type 0 where
  pub inode : ℕ
  pub offset : ℕ
  pub name : List ℕ
  pub type : ℕ

abbrev pub byte_at : ℕ → List ℕ → ℕ
byte_at i [] = 0
byte_at zero (b ∷ bs) = b
byte_at (suc i) (b ∷ bs) = byte_at i bs

-- The loop that takes the padding off a name of `namelen` bytes: its first byte always stays.
unfoldable pub unpadded : ℕ → List ℕ → ℕ
unpadded zero d_name = 0
unpadded (suc zero) d_name = 1
unpadded (suc (suc n)) d_name =
    let rest = unpadded (suc n) d_name in if byte_at (suc n) d_name == 0 then rest else suc (suc n)

-- The members of the structs. Those of linux_dirent and linux_dirent32 have `size` bytes each for the
-- inode number and the offset, and linux_dirent64 has d_type in front of d_name.
abbrev pub d_reclen : ℕ → List ℕ → ℕ
d_reclen size cur = number (take 2 (drop size (drop size cur)))

abbrev pub name_offset : ℕ → ℕ
name_offset size = size + size + 2

abbrev pub name64_offset : ℕ
name64_offset = 19

abbrev pub d_name32 : ℕ → List ℕ → List ℕ
d_name32 size cur = drop 2 (drop size (drop size cur))

abbrev pub d_name64 : List ℕ → List ℕ
d_name64 cur = drop 1 (drop 2 (drop 8 (drop 8 cur)))

-- An entry of `parseEntries32` for a struct whose members have `size` bytes, and of `parseEntries64`.
unfoldable pub entry32 : ℕ → List ℕ → Dirent
unfolding unpadded
entry32 size cur = record {
  inode = number (take size cur);
  offset = number (take size (drop size cur));
  name =
      take (unpadded (d_reclen size cur - name_offset size - 2) (d_name32 size cur))
        (d_name32 size cur);
  type = byte_at (d_reclen size cur - 1) cur;
}

unfoldable pub entry64 : List ℕ → Dirent
unfolding unpadded
entry64 cur = record {
  inode = number (take 8 cur);
  offset = number (take 8 (drop 8 cur));
  name = take (unpadded (d_reclen 8 cur - name64_offset) (d_name64 cur)) (d_name64 cur);
  type = byte_at 18 cur;
}

-- How the parsing ends: with the entries, or at a record that is shorter than its fixed part or longer
-- than the buffer, where the code has no defined behaviour; or an ApiError of the read.
pub data Parsed : Type 0 where
  entries : List Dirent → Parsed
  outside no_fuel : Parsed
  thrown : ℕ → Parsed

abbrev pub with_entry : Dirent → Parsed → Parsed
with_entry e (entries es) = entries (e ∷ es)
with_entry e p = p

-- The loop of both functions, one record for each unit of fuel.
unfoldable pub parse_loop : (ℕ → List ℕ → Dirent) → ℕ → ℕ → ℕ → List ℕ → Parsed
parse_loop entry size fixed zero cur = no_fuel
parse_loop entry size fixed (suc fuel) [] = entries []
parse_loop entry size fixed (suc fuel) (b ∷ bs) =
    let rest = parse_loop entry size fixed fuel (drop (d_reclen size (b ∷ bs)) (b ∷ bs)) in
    if ltb (d_reclen size (b ∷ bs)) fixed || ltb (length (b ∷ bs)) (d_reclen size (b ∷ bs))
    then outside
    else with_entry (entry size (b ∷ bs)) rest

unfoldable pub parse_entries32 : ℕ → ℕ → List ℕ → Parsed
unfolding parse_loop entry32
parse_entries32 size fuel buffer = parse_loop entry32 size (name_offset size + 2) fuel buffer

unfoldable pub parse_entries64 : ℕ → List ℕ → Parsed
unfolding parse_loop entry64
parse_entries64 fuel buffer = parse_loop (λ size. entry64) 8 name64_offset fuel buffer

-- `DirEntries::updateData`: the choice by the call and the ABI, and the entries after it.
abbrev appended : List Dirent → Parsed → Parsed
appended old (entries es) = entries (old ++ es)
appended old p = p

abbrev pub parse_by : Bool → Bool → ℕ → List ℕ → Parsed
parse_by true emulated fuel buffer = parse_entries64 fuel buffer
parse_by false true fuel buffer = parse_entries32 4 fuel buffer
parse_by false false fuel buffer = parse_entries32 8 fuel buffer

abbrev after_read : Bool → Bool → ℕ → List Dirent → Read Blob → Parsed
after_read is64 emulated fuel old (finished b) =
    appended old (parse_by is64 emulated fuel (b.buffer))
after_read is64 emulated fuel old (failed e b) = thrown e
after_read is64 emulated fuel old (unfinished b) = no_fuel

abbrev update_by : (ℕ → Read Blob) → Bool → Bool → ℕ → List Dirent → Option ℕ → Parsed
update_by read is64 emulated fuel old none = entries old
update_by read is64 emulated fuel old (some bytes) =
    if bytes == 0 then entries old else after_read is64 emulated fuel old (read bytes)

unfoldable pub update_entries :
    (peek : ℕ → Peek) (fuel ptr : ℕ) (is64 emulated : Bool) (old : List Dirent) (result : Option ℕ)
    → Parsed
unfolding parse_entries32 parse_entries64
update_entries peek fuel ptr is64 emulated old result =
    update_by (read_blob peek fuel ptr) is64 emulated fuel old result
