-- ===== src/Items/Dirents/Encoded.antt =====
-- The records that getdents(2) documents, and the parsing of a buffer of them.
use clues.Common.{
  ℕ, suc, ◌≡◌, refl, ap, ◌∙◌, ◌+◌, ◌-◌, ◌<◌, ◌≢◌, ◌^◌, arith, List, [], ◌∷◌, ◌++◌, take, drop,
  length, All, ◌≤◌,
}
use clues.Memory.{number}
use clues.Items.Dirents.{
  Dirent, byte_at, unpadded, d_reclen, name_offset, name64_offset, entry32, entry64,
}
use clues.Items.Dirents.Bytes.{
  le, number-le, take-le, drop-le, length-le, drop-append, kept, name_kept, drop-add, byte_at-drop,
  drop-append,
}

-- An entry, with the bytes between the zero that ends its name and the end of the record (or its type,
-- where that is the last byte). The kernel does not write these, so they hold what was there. A name has
-- a first byte and no zeros.
pub record Written : Type 0 where
  pub inode : ℕ
  pub offset : ℕ
  pub first : ℕ
  pub others : List ℕ
  pub padding : List ℕ
  pub type : ℕ

abbrev pub name_of : Written → List ℕ
name_of w = w.first ∷ w.others

-- The entry as it is read, with `p` of the bytes behind the name looked at: those up to the last one that
-- is not zero go with the name. The old structs have two bytes less to look at than their rest, one of
-- them the type.
abbrev meant : ℕ → Written → Dirent
meant p w = record {
  inode = w.inode;
  offset = w.offset;
  name = w.first ∷ (w.others ++ kept (take p (0 ∷ w.padding)));
  type = w.type;
}

abbrev pub meant32 : Written → Dirent
meant32 w = meant (length w.padding) w

abbrev pub meant64 : Written → Dirent
meant64 w = meant (suc (length w.padding)) w

-- linux_dirent and linux_dirent32: the type is the last byte. linux_dirent64: it is in front of the name.
abbrev pub length32 : ℕ → Written → ℕ
length32 size w = size + (size + (2 + (length (name_of w) + (suc (length w.padding) + 1))))

abbrev pub written32 : ℕ → Written → List ℕ → List ℕ
written32 size w rest =
    le size w.inode
    ++ (le size w.offset
        ++ (le 2 (length32 size w) ++ (name_of w ++ ((0 ∷ w.padding) ++ w.type ∷ rest))))

abbrev pub length64 : Written → ℕ
length64 w = 8 + (8 + (2 + (1 + (length (name_of w) + suc (length w.padding)))))

abbrev pub written64 : Written → List ℕ → List ℕ
written64 w rest =
    le 8 w.inode
    ++ (le 8 w.offset ++ (le 2 (length64 w) ++ (w.type ∷ (name_of w ++ ((0 ∷ w.padding) ++ rest)))))

-- The numbers fit their members, and the record its length member.
abbrev pub Fits : ℕ → ℕ → Written → Type 0
Fits size len w =
    (w.inode < 256 ^ size)
    × (w.offset < 256 ^ size)
    × (len < 256 ^ 2)
    × All (λ b. b ≢ 0) (name_of w)

abbrev pub buffer32 : ℕ → List Written → List ℕ
buffer32 size [] = []
buffer32 size (w ∷ ws) = written32 size w (buffer32 size ws)

abbrev pub buffer64 : List Written → List ℕ
buffer64 [] = []
buffer64 (w ∷ ws) = written64 w (buffer64 ws)

-- What the three first members are in front of any rest.
pub header :
    (size a b len : ℕ) (u : List ℕ)
    → a < 256 ^ size
    → b < 256 ^ size
    → len < 256 ^ 2
    → let cur = le size a ++ (le size b ++ (le 2 len ++ u)) in
      (number (take size cur) ≡ a)
      × (number (take size (drop size cur)) ≡ b)
      × (d_reclen size cur ≡ len)
      × (drop 2 (drop size (drop size cur)) ≡ u)
header size a b len u ha hb hl =
    let one = drop-le size a (le size b ++ (le 2 len ++ u)) in
    let two = drop-le size b (le 2 len ++ u) in
    (
      ap number (take-le size a (le size b ++ (le 2 len ++ u))) ∙ number-le size a ha,
      rw (one, take-le size b (le 2 len ++ u)) (number-le size b hb),
      rw (one, two, take-le 2 len u) (number-le 2 len hl),
      rw (one, two) (drop-le 2 len u),
    )

-- Everything behind the header is dropped by the length of the record.
pub skipped :
    (size a b len n : ℕ) (u : List ℕ)
    → drop (size + (size + (2 + n))) (le size a ++ (le size b ++ (le 2 len ++ u))) ≡ drop n u
skipped size a b len n u =
    rw
      (
        drop-add size (size + (2 + n)) (le size a ++ (le size b ++ (le 2 len ++ u))),
        drop-le size a (le size b ++ (le 2 len ++ u)),
        drop-add size (2 + n) (le size b ++ (le 2 len ++ u)),
        drop-le size b (le 2 len ++ u),
        drop-add 2 n (le 2 len ++ u),
        drop-le 2 len u,
      )
      refl

at_behind :
    (size a b len n : ℕ) (u : List ℕ)
    → byte_at (size + (size + (2 + n))) (le size a ++ (le size b ++ (le 2 len ++ u))) ≡ byte_at n u
at_behind size a b len n u =
    rw
      (
        byte_at-drop size (size + (2 + n)) (le size a ++ (le size b ++ (le 2 len ++ u))),
        drop-le size a (le size b ++ (le 2 len ++ u)),
        byte_at-drop size (2 + n) (le size b ++ (le 2 len ++ u)),
        drop-le size b (le 2 len ++ u),
        byte_at-drop 2 n (le 2 len ++ u),
        drop-le 2 len u,
      )
      refl

pub header_length :
    (size a b len : ℕ) (u : List ℕ)
    → length (le size a ++ (le size b ++ (le 2 len ++ u))) ≡ size + (size + (2 + length u))
header_length size a b len u =
    rw
      (
        length-le size a (le size b ++ (le 2 len ++ u)),
        length-le size b (le 2 len ++ u),
        length-le 2 len u,
      )
      refl

-- A name is read back with the bytes behind it that are kept.
name_read :
    (w : Written) (n p : ℕ) (y u : List ℕ)
    → All (λ b. b ≢ 0) (name_of w)
    → n ≡ suc (length w.others + p)
    → p ≤ length y
    → take (unpadded n (name_of w ++ (y ++ u))) (name_of w ++ (y ++ u))
      ≡ w.first ∷ (w.others ++ kept (take p y))
name_read w n p y u a e h = rw e (name_kept w.first w.others y u p a.1 h)

behind_row : (y : List ℕ) (x : ℕ) (u : List ℕ) → byte_at (length y) (y ++ x ∷ u) ≡ x
behind_row [] x u = refl
behind_row (b ∷ y) x u = behind_row y x u

dirent-ext :
    {a b c d e f : ℕ} {s t : List ℕ}
    → a ≡ b
    → c ≡ d
    → s ≡ t
    → e ≡ f
    → Path Dirent
        (record { inode = a; offset = c; name = s; type = e })
        (record { inode = b; offset = d; name = t; type = f })
dirent-ext p q r h = λ i. record { inode = p i; offset = q i; name = r i; type = h i }

type32 :
    (size : ℕ) (w : Written) (rest : List ℕ) (n : ℕ)
    → n ≡ length32 size w
    → byte_at (n - 1) (written32 size w rest) ≡ w.type
type32 size w rest n e =
    let last : n - 1 ≡ size + (size + (2 + (length (name_of w) + suc (length w.padding)))) =
      omega arith in
    ap (λ k. byte_at k (written32 size w rest)) last
    ∙ at_behind size w.inode w.offset (length32 size w)
        (length (name_of w) + suc (length w.padding))
        (name_of w ++ ((0 ∷ w.padding) ++ w.type ∷ rest))
    ∙ byte_at-drop (length (name_of w)) (suc (length w.padding))
        (name_of w ++ ((0 ∷ w.padding) ++ w.type ∷ rest))
    ∙ ap (λ r. byte_at (suc (length w.padding)) r)
        (drop-append (name_of w) ((0 ∷ w.padding) ++ w.type ∷ rest))
    ∙ behind_row (0 ∷ w.padding) w.type rest

pub entry32_lem :
    (size : ℕ) (w : Written) (rest : List ℕ)
    → Fits size (length32 size w) w
    → entry32 size (written32 size w rest) ≡ meant32 w
unfolding entry32
entry32_lem size w rest f =
    let behind = name_of w ++ ((0 ∷ w.padding) ++ w.type ∷ rest) in
    let h = header size w.inode w.offset (length32 size w) behind f.0 f.1 f.2 in
    let size_of_name : length32 size w - name_offset size - 2
        ≡ suc (length w.others + length w.padding) =
      omega arith in
    dirent-ext h.0 h.1
      (ap (λ d. take (unpadded (d_reclen size (written32 size w rest) - name_offset size - 2) d) d)
          h.3
        ∙ name_read w (d_reclen size (written32 size w rest) - name_offset size - 2)
            (length w.padding) (0 ∷ w.padding) (w.type ∷ rest) f.3
            (ap (λ l. l - name_offset size - 2) h.2 ∙ size_of_name) (omega arith))
      (type32 size w rest (d_reclen size (written32 size w rest)) h.2)

pub entry64_lem :
    (w : Written) (rest : List ℕ) → Fits 8 (length64 w) w → entry64 (written64 w rest) ≡ meant64 w
unfolding entry64
entry64_lem w rest f =
    let behind = w.type ∷ (name_of w ++ ((0 ∷ w.padding) ++ rest)) in
    let h = header 8 w.inode w.offset (length64 w) behind f.0 f.1 f.2 in
    let size_of_name : length64 w - name64_offset ≡ suc (length w.others + suc (length w.padding)) =
      omega arith in
    dirent-ext h.0 h.1
      (ap
          (λ d.
            take (unpadded (d_reclen 8 (written64 w rest) - name64_offset) (drop 1 d)) (drop 1 d))
          h.3
        ∙ name_read w (d_reclen 8 (written64 w rest) - name64_offset) (suc (length w.padding))
            (0 ∷ w.padding) rest f.3 (ap (λ l. l - name64_offset) h.2 ∙ size_of_name) (omega arith))
      (at_behind 8 w.inode w.offset (length64 w) 0 behind)
