-- ===== src/Format.antt =====
-- Formatting: signal, signal_set, saflags, limit, poll_event, poll_events and pointer of src/format.cxx.
-- A text is the list of the pieces that are put behind one another.
pub mod Joined
use clues.Common.{
  ℕ, zero, suc, ◌+◌, ◌*◌, ◌/◌, ◌%◌, ◌-◌, ◌^◌, String, Bool, true, false, not, ◌&&◌, ◌||◌, ◌==◌, ltb,
  leb, Option, none, some, List, [], ◌∷◌, ◌++◌, map, if◌then◌else◌,
}

-- A piece of text, or a number that is printed in decimal.
pub data Piece : Type 0 where
  str : String → Piece
  num : ℕ → Piece

abbrev pub Pieces : Type 0
Pieces = List Piece

-- The labels of `signal_label`, by the numbers that Linux gives them.
abbrev pub signal_labels : List (ℕ × String)
signal_labels =
    (2, "SIGINT")
    ∷ (15, "SIGTERM")
    ∷ (1, "SIGHUP")
    ∷ (3, "SIGQUIT")
    ∷ (4, "SIGILL")
    ∷ (6, "SIGABRT")
    ∷ (8, "SIGFPE")
    ∷ (9, "SIGKILL")
    ∷ (13, "SIGPIPE")
    ∷ (11, "SIGSEGV")
    ∷ (14, "SIGALRM")
    ∷ (10, "SIGUSR1")
    ∷ (12, "SIGUSR2")
    ∷ (18, "SIGCONT")
    ∷ (19, "SIGSTOP")
    ∷ (20, "SIGTSTP")
    ∷ (21, "SIGTTIN")
    ∷ (22, "SIGTTOU")
    ∷ (5, "SIGTRAP")
    ∷ (7, "SIGBUS")
    ∷ (16, "SIGSTKFLT")
    ∷ (17, "SIGCHLD")
    ∷ (29, "SIGIO")
    ∷ (27, "SIGPROF")
    ∷ (31, "SIGSYS")
    ∷ (28, "SIGWINCH")
    ∷ (30, "SIGPWR")
    ∷ (23, "SIGURG")
    ∷ (24, "SIGXCPU")
    ∷ (26, "SIGVTALRM")
    ∷ (25, "SIGXFSZ")
    ∷ []

abbrev pub lookup_label : List (ℕ × String) → ℕ → Option String
lookup_label [] n = none
lookup_label (l ∷ ls) n = if l.0 == n then some l.1 else lookup_label ls n

abbrev label_or_unknown : ℕ → Option String → Pieces
label_or_unknown raw none = str "unknown (" ∷ num raw ∷ str ")" ∷ []
label_or_unknown raw (some s) = str s ∷ []

unfoldable pub signal_label : ℕ → Pieces
signal_label raw = label_or_unknown raw (lookup_label signal_labels raw)

-- `format::signal` without `verbose`; SIGRTMIN and SIGRTMAX are calls of the C library.
unfoldable pub signal : ℕ → ℕ → ℕ → Pieces
unfolding signal_label
signal rt_min rt_max raw =
    if ltb raw (rt_min - 2) || ltb rt_max raw
    then signal_label raw
    else if leb (rt_min - 2) raw && ltb raw rt_min
    then str "glibc internal signal" ∷ []
    else str "SIGRT" ∷ num (raw - rt_min) ∷ []

-- The loop of `signal_set` from `signum` on, for `count` more numbers, and the cut of the last ", ".
unfoldable pub set_loop : (ℕ → Bool) → (ℕ → Pieces) → ℕ → ℕ → Pieces
set_loop set name zero signum = []
set_loop set name (suc count) signum =
    let rest = set_loop set name count (suc signum) in
    if set signum then (name signum ++ str ", " ∷ []) ++ rest else rest

abbrev pub drop_last : Pieces → Pieces
drop_last [] = []
drop_last (p ∷ []) = []
drop_last (p ∷ q ∷ ps) = p ∷ drop_last (q ∷ ps)

-- `signal_set`: the text in front of the cut is empty or ends with ", ".
unfoldable pub signal_set : ℕ → ℕ → (ℕ → Bool) → Pieces
unfolding set_loop signal
signal_set rt_min rt_max set =
    str "{" ∷ drop_last (set_loop set (signal rt_min rt_max) (rt_max - 1) 1) ++ str "}" ∷ []

-- A row of `chk_sa_flag`.
abbrev pub has_bit : ℕ → ℕ → Bool
has_bit flags flag = not ((flags / flag) % 2 == 0)

unfoldable pub chk_sa_flags : List (ℕ × String) → ℕ → Bool → Pieces
chk_sa_flags [] flags first = []
chk_sa_flags (f ∷ fs) flags first =
    let rest = chk_sa_flags fs flags false in
    let skipped = chk_sa_flags fs flags first in
    if has_bit flags f.0
    then (if first then str f.1 ∷ rest else str "|" ∷ str f.1 ∷ rest)
    else skipped

abbrev pub sa_flags : List (ℕ × String)
sa_flags =
    (1, "SA_NOCLDSTOP")
    ∷ (2, "SA_NOCLDWAIT")
    ∷ (1073741824, "SA_NODEFER")
    ∷ (134217728, "SA_ONSTACK")
    ∷ (2147483648, "SA_RESETHAND")
    ∷ (268435456, "SA_RESTART")
    ∷ (4, "SA_SIGINFO")
    ∷ (67108864, "SA_RESTORER")
    ∷ []

unfoldable pub saflags : ℕ → Pieces
unfolding chk_sa_flags
saflags flags = if flags == 0 then str "0" ∷ [] else chk_sa_flags sa_flags flags true

-- `limit`: its three forms; RLIM_INFINITY and RLIM64_INFINITY are the largest word.
abbrev pub rlim_infinity : ℕ
rlim_infinity = 18446744073709551615

pub data Limit : Type 0 where
  infinity : Limit
  times_1024 plain : ℕ → Limit

unfoldable pub limit : ℕ → Limit
limit lim =
    if lim == rlim_infinity
    then infinity
    else if lim % 1024 == 0
    then times_1024 (lim / 1024)
    else plain lim

-- `poll_event` of a single bit, and the loop of `poll_events` over the bits below HIGHEST.
abbrev pub poll_labels : List (ℕ × String)
poll_labels =
    (1, "POLLIN")
    ∷ (2, "POLLPRI")
    ∷ (4, "POLLOUT")
    ∷ (8192, "POLLRDHUP")
    ∷ (8, "POLLERR")
    ∷ (16, "POLLHUP")
    ∷ (32, "POLLNVAL")
    ∷ (512, "POLLWRBAND")
    ∷ []

abbrev label_or_number : ℕ → Option String → Piece
label_or_number raw none = num raw
label_or_number raw (some s) = str s

unfoldable pub poll_event : ℕ → Piece
poll_event raw = label_or_number raw (lookup_label poll_labels raw)

unfoldable pub poll_loop : ℕ → ℕ → ℕ → Pieces
unfolding poll_event
poll_loop zero bit events = []
poll_loop (suc count) bit events =
    let rest = poll_loop count (bit * 2) events in
    let bar = if bit == 1 then [] else str "|" ∷ [] in
    if has_bit events bit then bar ++ poll_event bit ∷ rest else rest

-- A PollEvent has 16 bits, and the highest one ends the loop.
unfoldable pub poll_events : ℕ → Pieces
unfolding poll_loop
poll_events events = poll_loop 15 1 events
