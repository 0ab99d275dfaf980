-- ===== src/Syscalls/Duplicates.antt =====
-- Copies of descriptors and their close-on-exec flag: DupSystemCall and FcntlSystemCall of
-- src/syscalls/fs.cxx.
use clues.Common.{
  ℕ, ◌≡◌, refl, ◌∙◌, Bool, true, false, none, some, arith, ◌==◌, ==_refl, if◌then◌else◌,
  Option-cases, inl, inr,
}
use clues.Common.Maps
use clues.Fd.{FdInfo, FdInfoMap, FileNum, file, find_fd, track_fd, flags_or_none, ensure_flags}
use clues.Fd.Tracking
use clues.Syscalls.{FcntlOper, dupfd, dupfd_cloexec, setfd}
use clues.Syscalls.Steps.{dupfd_entry-fd}
use clues.Syscalls.Files.{dup_tracking, fcntl_tracking, dupfd_entry, dupfd_found, set_cloexec}

-- The recorded close-on-exec flag; an entry without flags has it not.
abbrev pub cloexec_of : FdInfo → Bool
cloexec_of i = (flags_or_none i.flags).cloexec

-- The operation of fcntl that copies a descriptor with a given close-on-exec flag.
abbrev pub copy_oper : Bool → FcntlOper
copy_oper true = dupfd_cloexec
copy_oper false = dupfd

-- dup, dup2 or dup3 of a known descriptor onto `n`: if `n` was unknown it gets the entry of the
-- source under its own number, the close-on-exec flag with it; if it was known, which dup2 and dup3
-- allow, its old entry stays. No other entry changes.
pub dup_tracking_lem :
    (old : FileNum) (n k : ℕ) (i : FdInfo) (m : FdInfoMap)
    → Maps.IsSorted m
    → find_fd old m ≡ some i
    → Maps.find k (dup_tracking old (file n) m) ≡ (
        if k == n
        then some (Tracking.kept_or_new (Maps.find n m) (record i { fd = file n }))
        else Maps.find k m)
unfolding dup_tracking
dup_tracking_lem old n k i m s e =
    rw e (Tracking.find-track_fd (record i { fd = file n }) n k m refl s)

-- Two entries for the same object, but for the number and the flags.
pub record SameObject (a b : FdInfo) : Type 0 where
  pub type : a.type ≡ b.type
  pub path : a.path ≡ b.path
  pub mode : a.mode ≡ b.mode
  pub inode : a.inode ≡ b.inode
  pub domain : a.sock_domain ≡ b.sock_domain

dupfd_entry_lem :
    (b : Bool) (n : FileNum) (i : FdInfo)
    → (cloexec_of (dupfd_entry b n i) ≡ b) × SameObject (dupfd_entry b n i) i
unfolding dupfd_entry set_cloexec ensure_flags
dupfd_entry_lem true n i =
    (refl, record { type = refl; path = refl; mode = refl; inode = refl; domain = refl })
dupfd_entry_lem false n i = elim (Option-cases i.flags) [
  | inl p ↦
      rw p (refl, record { type = refl; path = refl; mode = refl; inode = refl; domain = refl })
  | inr (f, p) ↦
      rw p (refl, record { type = refl; path = refl; mode = refl; inode = refl; domain = refl })
]

-- F_DUPFD and F_DUPFD_CLOEXEC of a known descriptor onto a new one: the new one is for the same object,
-- and its close-on-exec flag is the one that the operation asks for, whatever the source has.
pub fcntl_tracking_copy :
    (b arg : Bool) (fd : FileNum) (n : ℕ) (i : FdInfo) (m : FdInfoMap)
    → Maps.IsSorted m
    → find_fd fd m ≡ some i
    → Maps.find n m ≡ none
    → (e : FdInfo) × (Maps.find n (fcntl_tracking (copy_oper b) fd (file n) arg m) ≡ some e)
      × (cloexec_of e ≡ b)
      × SameObject e i
unfolding fcntl_tracking
fcntl_tracking_copy b arg fd n i m s e h = (
  dupfd_entry b (file n) i,
  copied b,
  (dupfd_entry_lem b (file n) i).0,
  (dupfd_entry_lem b (file n) i).1,
)
  where
    inserted : (x : FdInfo) → x.fd ≡ file n → Maps.find n (track_fd x m) ≡ some x
    inserted x p = Tracking.find-track_fd x n n m p s ∙ simp (==_refl n, h)

    found :
        (c : Bool)
        → Maps.find n (dupfd_found c (file n) m (find_fd fd m)) ≡ some (dupfd_entry c (file n) i)
    found c = rw e (inserted (dupfd_entry c (file n) i) (dupfd_entry-fd c (file n) i))

    copied :
        (c : Bool)
        → Maps.find n (fcntl_tracking (copy_oper c) fd (file n) arg m)
          ≡ some (dupfd_entry c (file n) i)
    copied true = found true
    copied false = found false

-- F_SETFD of a known descriptor records the flag that it sets, for the same object as before; no other
-- entry changes.
pub fcntl_tracking_setfd :
    (arg : Bool) (n : ℕ) (ret : FileNum) (i : FdInfo) (m : FdInfoMap)
    → Tracking.IsKeyed m
    → Maps.find n m ≡ some i
    → (e : FdInfo) × ((k : ℕ)
        → Maps.find k (fcntl_tracking setfd (file n) ret arg m)
          ≡ (if k == n then some e else Maps.find k m))
      × (cloexec_of e ≡ arg)
      × SameObject e i
unfolding fcntl_tracking find_fd set_cloexec ensure_flags
fcntl_tracking_setfd arg n ret i m v h = (
  set_cloexec arg i,
  (λ k. rw h (
      Tracking.find-update_fd (set_cloexec arg i) n k m (Tracking.find-IsOwn n i m v.own h)
      ∙ rw h (ground arith))),
  refl,
  record { type = refl; path = refl; mode = refl; inode = refl; domain = refl },
)
