-- ===== src/Examples/Texts.antt =====
-- Concrete inputs for the listing of /proc/<pid>/fd, for directory entries and for what the library
-- prints.
use clues.Items.Dirents.Ended.{kernel_buffer, read_entries, update_entries_lem}
use clues.Items.Dirents.{entries, update_entries}
use clues.Common.{
  ℕ, ◌≡◌, refl, ap, sym, ◌∙◌, ◌+◌, ◌*◌, ◌-◌, arith, Bool, true, false, not, ◌&&◌, ◌||◌, ◌==◌, leb,
  Option, none, some, List, [], ◌∷◌, ◌++◌, if◌then◌else◌, map, keep_if, Bool-cases, inl, inr, zero,
  suc, ◌/◌, take, drop, get_elem?,
}
use mathlib.Core.List.{append-nil}
use clues.Memory.{Peek, increment, word, error}
use clues.Items.Dirents.Encoded.{Written}
use clues.Items.Dirents.Bytes.{c_string}
use clues.Fd.{file}
use clues.Proc.{
  Text, Texts, DirEntry, empty_info, parse_type_info, get_fd_infos, get_currently_open_fds,
}
use clues.Proc.Links.{
  SplitsAndStrips, colon, free_of, Link, numbered, pipe_link, link_text, meant, parse_type_info_lem,
}
use clues.Proc.Listing.{inserted, get_fd_infos_lem}
use clues.Format.{str, signal, signal_set, poll_events, has_bit}
use clues.Format.Joined.{separated, preceded, upto, bits, event_of, signal_set_lem, poll_events_lem}

-- A splitter at the first colon, and removers of characters.
abbrev before : Text → Text
before [] = []
before (c ∷ cs) = let rest = before cs in if c == colon then [] else c ∷ rest

abbrev after : Text → Text
after [] = []
after (c ∷ cs) = let rest = after cs in if c == colon then cs else rest

abbrev split_at_colon : Text → List Text
split_at_colon t = if free_of colon t then t ∷ [] else before t ∷ after t ∷ []

abbrev is_bracket : ℕ → Bool
is_bracket c = c == 91 || c == 93

abbrev without : (ℕ → Bool) → Text → Text
without p t = keep_if (λ c. not (p c)) t

abbrev is_blank : ℕ → Bool
is_blank c = c == 32 || c == 9

-- Numbers of any base, with the digits so far.
abbrev digits_value : ℕ → ℕ → Text → Option ℕ
digits_value base n [] = some n
digits_value base n (c ∷ cs) =
    let rest = digits_value base (n * base + (c - 48)) cs in
    if leb 48 c && leb c (47 + base) then rest else none

abbrev number_value : ℕ → Text → Option ℕ
number_value base [] = none
number_value base (c ∷ cs) = digits_value base 0 (c ∷ cs)

abbrev texts : Texts
texts = record {
  split = split_at_colon;
  split_strip = λ t. map (without is_blank) (split_at_colon t);
  stripped = without is_bracket;
  stoi = number_value 10;
  stoul = number_value 10;
  stoi_octal = number_value 8;
}

not-free : (w r : Text) → free_of colon (w ++ colon ∷ r) ≡ false
not-free [] r = refl
not-free (c ∷ w) r = elim (Bool-cases (c == colon)) [
  | inl p ↦ rw p refl
  | inr p ↦ rw p (not-free w r)
]

before-append : (w r : Text) → free_of colon w ≡ true → before (w ++ colon ∷ r) ≡ w
before-append [] r h = refl
before-append (c ∷ w) r h = ground (arith, before-append w r)

after-append : (w r : Text) → free_of colon w ≡ true → after (w ++ colon ∷ r) ≡ r
after-append [] r h = refl
after-append (c ∷ w) r h = ground (arith, after-append w r)

without-free :
    (t u : Text)
    → (free_of 91 t && free_of 93 t) ≡ true
    → without is_bracket (t ++ u) ≡ t ++ without is_bracket u
without-free [] u h = refl
without-free (c ∷ t) u h = ground (arith, without-free t u)

texts-SplitsAndStrips : SplitsAndStrips texts
texts-SplitsAndStrips = record {
  splits = λ w r h. rw (not-free w r, before-append w r h, after-append w r h) refl;
  strips = λ t h. rw (without-free t (93 ∷ []) h) (append-nil t);
  leaves = λ t h. ap (without is_bracket) (sym (append-nil t)) ∙ without-free t [] h ∙ append-nil t;
}

-- `pipe:[42]`.
abbrev pipe_42 : Link
pipe_42 = numbered pipe_link (52 ∷ 50 ∷ [])

parse_type_info_lem_example :
    parse_type_info texts (link_text pipe_42) empty_info ≡ (meant pipe_42 42 empty_info, true)
parse_type_info_lem_example =
    parse_type_info_lem texts pipe_42 42 empty_info texts-SplitsAndStrips (refl, refl)

-- The dot entry, a pipe with its flags, and a descriptor of which nothing can be read.
abbrev fd_dir : List DirEntry
fd_dir =
    record { name = 46 ∷ []; link = none; fdinfo = none }
    ∷ record {
      name = 53 ∷ [];
      link = some (link_text pipe_42);
      fdinfo = some ((102 ∷ 108 ∷ 97 ∷ 103 ∷ 115 ∷ 58 ∷ 9 ∷ 48 ∷ 50 ∷ []) ∷ []);
    }
    ∷ record { name = 51 ∷ []; link = none; fdinfo = none }
    ∷ []

get_fd_infos_lem_example :
    (ns : List ℕ) × (map (λ i. i.fd) (get_fd_infos texts fd_dir) ≡ map file ns)
    × (get_currently_open_fds texts fd_dir ≡ inserted ns [])
unfolding parse_type_info
get_fd_infos_lem_example =
    get_fd_infos_lem texts fd_dir ((λ n. refl), ((λ n. refl), ((λ n. refl), tt)))

-- SIGINT and SIGRTMAX are in the set.
abbrev int_and_max : ℕ → Bool
int_and_max n = n == 2 || n == 64

signal_set_lem_example :
    signal_set 34 64 int_and_max
    ≡ str "{" ∷ separated (str ", ") (map (signal 34 64) (keep_if int_and_max (upto 63 1)))
      ++ str "}" ∷ []
signal_set_lem_example = signal_set_lem 34 64 int_and_max

-- POLLPRI and POLLOUT, without POLLIN.
poll_events_lem_example : poll_events 6 ≡ (
    if has_bit 6 1
    then separated (str "|") (map event_of (keep_if (λ b. has_bit 6 b) (bits 15 1)))
    else preceded (str "|") (map event_of (keep_if (λ b. has_bit 6 b) (bits 15 1))))
poll_events_lem_example = poll_events_lem 6

-- A directory with two entries, read by getdents() of a 32-bit program; their records fill three words
-- each. Behind the first name stands a byte that was in the buffer before.
abbrev two_entries : List Written
two_entries =
    record {
      inode = 7;
      offset = 1;
      first = 97;
      others = 98 ∷ [];
      padding = 0 ∷ 120 ∷ 0 ∷ 0 ∷ 0 ∷ 0 ∷ 0 ∷ 0 ∷ 0 ∷ 0 ∷ [];
      type = 8;
    }
    ∷ record {
      inode = 9;
      offset = 2;
      first = 46;
      others = [];
      padding = 0 ∷ 0 ∷ 0 ∷ 0 ∷ 0 ∷ 0 ∷ 0 ∷ 0 ∷ 0 ∷ 0 ∷ 0 ∷ [];
      type = 4;
    }
    ∷ []

abbrev in_words : ℕ → List ℕ → List (List ℕ)
in_words zero u = []
in_words (suc n) u = take 8 u ∷ in_words n (drop 8 u)

abbrev dir_words : List (List ℕ)
dir_words = in_words 6 (kernel_buffer false true two_entries)

abbrev word_or_error : Option (List ℕ) → Peek
word_or_error none = error 5
word_or_error (some w) = word w

abbrev dir_memory : ℕ → Peek
dir_memory addr = word_or_error (get_elem? dir_words ((addr - 64) / 8))

update_entries_lem_example :
    (update_entries dir_memory 9 64 false true [] (some 48)
      ≡ entries (
          record { inode = 7; offset = 1; name = 97 ∷ 98 ∷ 0 ∷ 0 ∷ 120 ∷ []; type = 8 }
          ∷ record { inode = 9; offset = 2; name = 46 ∷ []; type = 4 }
          ∷ []))
    × (map (λ d. c_string d.name) (read_entries false two_entries)
        ≡ (97 ∷ 98 ∷ []) ∷ (46 ∷ []) ∷ [])
unfolding increment
update_entries_lem_example =
    update_entries_lem dir_memory 9 64 false true [] two_entries dir_words
      (
        (omega arith, omega arith, omega arith, ((λ e. omega arith), ((λ e. omega arith), tt))),
        ((omega arith, omega arith, omega arith, ((λ e. omega arith), tt)), tt),
      )
      (
        (refl, (refl, (refl, (refl, (refl, (refl, tt)))))),
        (refl, (refl, (refl, (refl, (refl, (refl, tt)))))),
        refl,
        omega arith,
      )
      (omega arith) (omega arith)
