-- ===== src/Proc/Links.antt =====
-- The texts of the links in /proc/<pid>/fd, as proc(5) documents them, and parse_type_info.
use clues.Common.{
  ℕ, ◌≡◌, refl, ◌<◌, ◌+◌, ◌%◌, arith, Bool, true, false, not, ◌&&◌, ◌==◌, none, some, [], ◌∷◌, ◌++◌,
}
use clues.Fd.{FdType}
use clues.Proc.{Text, Texts, ProcInfo, parse_type_info, to_fd_info_type, set_flags}

-- Objects with an inode number, and those of an anonymous inode.
pub data Numbered : Type 0 where
  pipe_link socket_link : Numbered

pub data Anonymous : Type 0 where
  eventfd eventpoll pidfd signalfd timerfd inotify bpf_map bpf_prog perf_event : Anonymous

-- What Linux writes, byte by byte and apart from the words of the model: "pipe", "socket" and
-- "anon_inode" in front of the colon, and behind that one "eventfd", "eventpoll", "pidfd", "signalfd",
-- "timerfd", "inotify", "bpf-map", "bpf-prog" or "perf_event".
abbrev word_of : Numbered → Text
word_of pipe_link = 112 ∷ 105 ∷ 112 ∷ 101 ∷ []
word_of socket_link = 115 ∷ 111 ∷ 99 ∷ 107 ∷ 101 ∷ 116 ∷ []

abbrev anon_inode : Text
anon_inode = 97 ∷ 110 ∷ 111 ∷ 110 ∷ 95 ∷ 105 ∷ 110 ∷ 111 ∷ 100 ∷ 101 ∷ []

abbrev type_of : Numbered → FdType
type_of pipe_link = FdType.pipe
type_of socket_link = FdType.socket

abbrev anon_word : Anonymous → Text
anon_word eventfd = 101 ∷ 118 ∷ 101 ∷ 110 ∷ 116 ∷ 102 ∷ 100 ∷ []
anon_word eventpoll = 101 ∷ 118 ∷ 101 ∷ 110 ∷ 116 ∷ 112 ∷ 111 ∷ 108 ∷ 108 ∷ []
anon_word pidfd = 112 ∷ 105 ∷ 100 ∷ 102 ∷ 100 ∷ []
anon_word signalfd = 115 ∷ 105 ∷ 103 ∷ 110 ∷ 97 ∷ 108 ∷ 102 ∷ 100 ∷ []
anon_word timerfd = 116 ∷ 105 ∷ 109 ∷ 101 ∷ 114 ∷ 102 ∷ 100 ∷ []
anon_word inotify = 105 ∷ 110 ∷ 111 ∷ 116 ∷ 105 ∷ 102 ∷ 121 ∷ []
anon_word bpf_map = 98 ∷ 112 ∷ 102 ∷ 45 ∷ 109 ∷ 97 ∷ 112 ∷ []
anon_word bpf_prog = 98 ∷ 112 ∷ 102 ∷ 45 ∷ 112 ∷ 114 ∷ 111 ∷ 103 ∷ []
anon_word perf_event = 112 ∷ 101 ∷ 114 ∷ 102 ∷ 95 ∷ 101 ∷ 118 ∷ 101 ∷ 110 ∷ 116 ∷ []

abbrev anon_type : Anonymous → FdType
anon_type eventfd = FdType.event_fd
anon_type eventpoll = FdType.epoll
anon_type pidfd = FdType.pid_fd
anon_type signalfd = FdType.signal_fd
anon_type timerfd = FdType.timer_fd
anon_type inotify = FdType.inotify
anon_type bpf_map = FdType.bpf_map
anon_type bpf_prog = FdType.bpf_prog
anon_type perf_event = FdType.perf_event

-- A path, a type with an inode number in square brackets, or an anonymous inode, with its type in
-- square brackets or without.
pub data Link : Type 0 where
  path_link : Text → Link
  numbered : Numbered → Text → Link
  anonymous : Bool → Anonymous → Link

abbrev pub colon : ℕ
colon = 58

abbrev pub bracketed : Text → Text
bracketed t = 91 ∷ t ++ 93 ∷ []

abbrev anon_text : Bool → Text → Text
anon_text true t = bracketed t
anon_text false t = t

abbrev pub link_text : Link → Text
link_text (path_link t) = 47 ∷ t
link_text (numbered k digits) = word_of k ++ colon ∷ bracketed digits
link_text (anonymous b k) = anon_inode ++ colon ∷ anon_text b (anon_word k)

-- What cosmos documents: a text is split at its first colon, and square brackets are taken off both
-- ends.
abbrev pub free_of : ℕ → Text → Bool
free_of c [] = true
free_of c (x ∷ xs) = not (x == c) && free_of c xs

pub record SplitsAndStrips (ts : Texts) : Type 0 where
  pub splits : (w r : Text) → free_of colon w ≡ true → ts.split (w ++ colon ∷ r) ≡ w ∷ r ∷ []
  pub strips : (t : Text) → (free_of 91 t && free_of 93 t) ≡ true → ts.stripped (bracketed t) ≡ t
  pub leaves : (t : Text) → (free_of 91 t && free_of 93 t) ≡ true → ts.stripped t ≡ t

-- The digits of an inode number are read as this number.
abbrev pub Digits : Texts → Link → ℕ → Type 0
Digits ts (numbered k t) n = ((free_of 91 t && free_of 93 t) ≡ true) × (ts.stoul t ≡ some n)
Digits ts _ n = Unit

-- The information that a link stands for.
abbrev pub meant : Link → ℕ → ProcInfo → ProcInfo
meant (path_link t) n i = record i { path = 47 ∷ t; type = FdType.fs_path; inode = none }
meant (numbered k t) n i = record i { type = type_of k; inode = some n }
meant (anonymous b k) n i = record i { type = anon_type k }

anon_free : (k : Anonymous) → (free_of 91 (anon_word k) && free_of 93 (anon_word k)) ≡ true
anon_free eventfd = refl
anon_free _ = refl

anon_known : (k : Anonymous) → to_fd_info_type (anon_word k) ≡ anon_type k
unfolding to_fd_info_type
anon_known eventfd = refl
anon_known _ = refl

numbered_known : (k : Numbered) → to_fd_info_type (word_of k) ≡ type_of k
unfolding to_fd_info_type
numbered_known pipe_link = refl
numbered_known socket_link = refl

anon_part :
    (ts : Texts) (b : Bool) (k : Anonymous)
    → SplitsAndStrips ts
    → ts.stripped (anon_text b (anon_word k)) ≡ anon_word k
anon_part ts true k h = h.strips (anon_word k) (anon_free k)
anon_part ts false k h = h.leaves (anon_word k) (anon_free k)

-- Every link that Linux writes for these types is understood, and gives the type, the path or the
-- inode number that it stands for; nothing else of the information changes.
pub parse_type_info_lem :
    (ts : Texts) (l : Link) (n : ℕ) (i : ProcInfo)
    → SplitsAndStrips ts
    → Digits ts l n
    → parse_type_info ts (link_text l) i ≡ (meant l n i, true)
unfolding parse_type_info
parse_type_info_lem ts (path_link t) n i h d = refl
parse_type_info_lem ts (numbered pipe_link t) n i h d =
    rw
      (
        h.splits (word_of pipe_link) (bracketed t) refl,
        h.strips t (d.0),
        d.1,
        numbered_known pipe_link,
      )
      refl
parse_type_info_lem ts (numbered socket_link t) n i h d =
    rw
      (
        h.splits (word_of socket_link) (bracketed t) refl,
        h.strips t (d.0),
        d.1,
        numbered_known socket_link,
      )
      refl
parse_type_info_lem ts (anonymous b k) n i h d =
    rw (h.splits anon_inode (anon_text b (anon_word k)) refl, anon_part ts b k h, anon_known k) refl

-- The access mode is the two low bits of the flags in fdinfo, and the flags are all others: together
-- they are the number that was read.
pub set_flags_lem :
    (raw : ℕ) (i : ProcInfo)
    → (m : ℕ) × (f : ℕ) × ((set_flags raw i).mode ≡ some m)
      × ((set_flags raw i).flags ≡ some f)
      × (m < 4)
      × (f % 4 ≡ 0)
      × (f + m ≡ raw)
unfolding set_flags
set_flags_lem raw i = (_, _, refl, refl, omega arith, omega arith, omega arith)
