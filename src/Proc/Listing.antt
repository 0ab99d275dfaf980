-- ===== src/Proc/Listing.antt =====
-- The listing of get_fd_infos and the one of get_currently_open_fds.
use clues.Common.{
  ℕ, ◌≡◌, refl, ap, ◌∙◌, arith, Bool, true, false, Option, none, some, List, [], ◌∷◌, map,
  Bool-cases, Option-cases, inl, inr, All,
}
use clues.Fd.{FileNum, file}
use clues.Proc.{
  Text, Texts, ProcInfo, DirEntry, parse_type_info, parse_fd_info, empty_info, with_fdinfo, linked,
  with_link, is_dot_entry, entry_info, get_fd_infos, open_fds_loop, insert_number,
  get_currently_open_fds, set_flags,
}

parse_type_info-fd : (ts : Texts) (t : Text) (i : ProcInfo) → (parse_type_info ts t i).0.fd ≡ i.fd
unfolding parse_type_info
parse_type_info-fd ts t i = ground arith

parse_fd_info-fd :
    (ts : Texts) (lines : List Text) (i j : ProcInfo)
    → parse_fd_info ts lines i ≡ some j
    → j.fd ≡ i.fd
unfolding parse_fd_info set_flags
parse_fd_info-fd ts [] i j e = absurd cc
parse_fd_info-fd ts (l ∷ ls) i j e = ground (arith, parse_fd_info-fd ts ls i j)

-- Whether the text of the entry's link, if it can be read, is understood.
abbrev understood : Texts → ℕ → Option Text → Bool
understood ts n none = true
understood ts n (some t) = (parse_type_info ts t (record empty_info { fd = file n })).1

abbrev pub Understood : Texts → DirEntry → Type 0
Understood ts e = (n : ℕ) → understood ts n e.link ≡ true

fdinfo-fd : (ts : Texts) (f : Option (List Text)) (i : ProcInfo) → (with_fdinfo ts f i).fd ≡ i.fd
fdinfo-fd ts none i = refl
fdinfo-fd ts (some lines) i = elim (Option-cases (parse_fd_info ts lines i)) [
  | inl p ↦ rw p refl
  | inr (j, p) ↦ rw p (parse_fd_info-fd ts lines i j p)
]

abbrev Numbers : FileNum → Option ProcInfo → Type 0
Numbers n o = (i : ProcInfo) × (o ≡ some i) × (i.fd ≡ n)

linked-Numbers :
    (ts : Texts) (f : Option (List Text)) (n : FileNum) (r : ProcInfo × Bool)
    → r.1 ≡ true
    → r.0.fd ≡ n
    → Numbers n (linked ts f r)
linked-Numbers ts f n (i, true) h e = (with_fdinfo ts f i, refl, fdinfo-fd ts f i ∙ e)
linked-Numbers ts f n (i, false) h e = absurd cc

with_link-Numbers :
    (ts : Texts) (e : DirEntry) (n : ℕ)
    → Understood ts e
    → Numbers (file n) (with_link ts e (record empty_info { fd = file n }))
with_link-Numbers ts e n u = go e.link (u n)
  where
    go :
        (o : Option Text)
        → understood ts n o ≡ true
        → Numbers
            (file n)
            (with_link ts (record e { link = o }) (record empty_info { fd = file n }))
    go none h = (_, refl, fdinfo-fd ts e.fdinfo (record empty_info { fd = file n }))
    go (some t) h =
        linked-Numbers ts e.fdinfo (file n)
          (parse_type_info ts t (record empty_info { fd = file n })) h
          (parse_type_info-fd ts t (record empty_info { fd = file n }))

-- A set of numbers with those of a list inserted, one after the other.
abbrev pub inserted : List ℕ → List ℕ → List ℕ
inserted [] ret = ret
inserted (n ∷ ns) ret = inserted ns (insert_number n ret)

listing_loop :
    (ts : Texts) (es : List DirEntry) (ret : List ℕ)
    → All (Understood ts) es
    → (ns : List ℕ) × (map (λ i. i.fd) (get_fd_infos ts es) ≡ map file ns)
      × (open_fds_loop ts es ret ≡ inserted ns ret)
unfolding get_fd_infos open_fds_loop entry_info
listing_loop ts [] ret u = ([], refl, refl)
listing_loop ts (e ∷ es) ret u = elim (Bool-cases (is_dot_entry e.name)) [
  | inl dot ↦ rw dot (listing_loop ts es ret u.1)
  | inr other ↦ elim (Option-cases (ts.stoi e.name)) [
    | inl p ↦ rw (other, p) (listing_loop ts es ret u.1)
    | inr (n, p) ↦
        let k = with_link-Numbers ts e n u.0 in
        let r = listing_loop ts es (insert_number n ret) u.1 in
        rw (other, p, k.1, k.2) (n ∷ r.0, ap (λ l. file n ∷ l) r.1, r.2)
  ]
]

-- Where every link that can be read is understood, the entries whose names are numbers are listed by
-- get_fd_infos one by one, and the set of get_currently_open_fds is the set of the same numbers: also
-- of those whose link or whose fdinfo cannot be read.
pub get_fd_infos_lem :
    (ts : Texts) (es : List DirEntry)
    → All (Understood ts) es
    → (ns : List ℕ) × (map (λ i. i.fd) (get_fd_infos ts es) ≡ map file ns)
      × (get_currently_open_fds ts es ≡ inserted ns [])
unfolding get_currently_open_fds
get_fd_infos_lem ts es u = listing_loop ts es [] u
