-- ===== src/Syscalls/Extras.antt =====
-- Parameters that are there by the value of another one: OpenSystemCall and OpenAtSystemCall of
-- src/syscalls/fs.cxx, WaitIDSystemCall of src/syscalls/process.cxx, and ArchPrctlSystemCall of
-- src/syscalls/prctl.cxx.
use clues.Common.{◌≡◌, refl, Bool, true, false, Option, some, List, [], ◌∷◌, ◌||◌, if◌then◌else◌}
use clues.Syscalls.Members.{Member}
use clues.Syscalls.Layout.{
  Layout, reset, reset_all, emplace, drop_parameters, add_parameters, with_parameter, with_return,
  Checked, second_pass, one_pass, bad_call, Kept, StartsWith, after,
}

-- OpenSystemCall and OpenAtSystemCall; `create` and `tmpfile` are the bits of the open flags.
unfoldable pub open_prepare : Layout → Layout
open_prepare l = reset Member.mode (drop_parameters 2 l)

unfoldable pub open_check : Bool → Bool → Layout → Checked
open_check create tmpfile l =
    if create || tmpfile then second_pass (with_parameter Member.mode l) else one_pass l

unfoldable pub open_at_prepare : Layout → Layout
open_at_prepare l = reset Member.mode (drop_parameters 3 l)

unfoldable pub open_at_check : Bool → Bool → Layout → Checked
open_at_check create tmpfile l =
    if create || tmpfile then second_pass (with_parameter Member.mode l) else one_pass l

-- item::WaitID::Type; `other` stands for any other number.
pub data WaitIdType : Type 0 where
  pid pgid pidfd all other : WaitIdType

abbrev pub waitid_optional : List Member
waitid_optional = Member.id_pid ∷ Member.id_pgid ∷ Member.id_pidfd ∷ []

unfoldable pub waitid_prepare : Layout → Layout
waitid_prepare l = reset_all waitid_optional (drop_parameters 1 l)

abbrev setup_pars : Member → Layout → Checked
setup_pars m l =
    second_pass (add_parameters (m ∷ Member.siginfo ∷ Member.options ∷ Member.rusage ∷ []) l)

unfoldable pub waitid_check : WaitIdType → Layout → Checked
waitid_check pid l = setup_pars Member.id_pid (emplace Member.id_pid l)
waitid_check pgid l = setup_pars Member.id_pgid (emplace Member.id_pgid l)
waitid_check pidfd l = setup_pars Member.id_pidfd (emplace Member.id_pidfd l)
waitid_check all l = setup_pars Member.unused l
waitid_check other l = bad_call l

-- item::ArchOpParameter::Operation; `unknown` stands for any other number.
pub data ArchOp : Type 0 where
  set_cpuid get_cpuid set_fs set_gs get_fs get_gs unknown : ArchOp

abbrev pub arch_optional : List Member
arch_optional =
    Member.on_off ∷ Member.set_addr ∷ Member.get_addr ∷ Member.on_off_ret ∷ Member.result ∷ []

unfoldable pub arch_prctl_prepare : Layout → Layout
arch_prctl_prepare l = with_return Member.result (
    reset_all (Member.on_off ∷ Member.set_addr ∷ Member.get_addr ∷ Member.on_off_ret ∷ [])
      (drop_parameters 1 l))

unfoldable pub arch_prctl_check : ArchOp → Layout → Checked
arch_prctl_check set_cpuid l = second_pass (with_parameter Member.on_off l)
arch_prctl_check get_cpuid l = second_pass (with_return Member.on_off_ret (reset Member.result l))
arch_prctl_check set_fs l = second_pass (with_parameter Member.set_addr l)
arch_prctl_check set_gs l = second_pass (with_parameter Member.set_addr l)
arch_prctl_check get_fs l = second_pass (with_parameter Member.get_addr l)
arch_prctl_check get_gs l = second_pass (with_parameter Member.get_addr l)
arch_prctl_check unknown l = second_pass l

-- A call of one of the four classes, with the values that its layout depends on.
pub data Extra : Type 0 where
  open_call open_at : Bool → Bool → Extra
  waitid : WaitIdType → Extra
  arch_prctl : ArchOp → Extra

unfoldable pub extra_entry : Extra → Layout → Checked
unfolding open_check open_prepare open_at_check open_at_prepare waitid_check waitid_prepare
    arch_prctl_check arch_prctl_prepare
extra_entry (open_call c t) l = open_check c t (open_prepare l)
extra_entry (open_at c t) l = open_at_check c t (open_at_prepare l)
extra_entry (waitid i) l = waitid_check i (waitid_prepare l)
extra_entry (arch_prctl o) l = arch_prctl_check o (arch_prctl_prepare l)

abbrev pub extra_fixed : Extra → List Member
extra_fixed (open_call c t) = Member.filename ∷ Member.flags ∷ []
extra_fixed (open_at c t) = Member.fd ∷ Member.filename ∷ Member.flags ∷ []
extra_fixed (waitid i) = Member.idtype ∷ []
extra_fixed (arch_prctl o) = Member.op ∷ []

abbrev pub extra_optional : Extra → List Member
extra_optional (open_call c t) = Member.mode ∷ []
extra_optional (open_at c t) = Member.mode ∷ []
extra_optional (waitid i) = waitid_optional
extra_optional (arch_prctl o) = arch_optional

-- The constructors set the return item for good, but arch_prctl sets it anew at each entry.
abbrev pub ReturnsFixed : Extra → Option Member → Type 0
ReturnsFixed (arch_prctl o) r = Unit
ReturnsFixed (waitid i) r = r ≡ some Member.res
ReturnsFixed _ r = r ≡ some Member.new_fd

entry_from :
    (x : Extra) (rest : List Member) (r : Option Member) (live : Member → Bool)
    → ReturnsFixed x r
    → Kept (extra_optional x) (extra_fixed x) (extra_entry x (after (extra_fixed x) rest r live))
unfolding extra_entry
entry_from (open_call true t) rest r live e = rw e (refl, (_, refl))
entry_from (open_call false true) rest r live e = rw e (refl, (_, refl))
entry_from (open_call false false) rest r live e = rw e (refl, refl)
entry_from (open_at true t) rest r live e = rw e (refl, (_, refl))
entry_from (open_at false true) rest r live e = rw e (refl, (_, refl))
entry_from (open_at false false) rest r live e = rw e (refl, refl)
entry_from (waitid other) rest r live e = refl
entry_from (waitid pid) rest r live e = rw e (refl, (_, refl))
entry_from (waitid _) rest r live e = rw e (refl, (_, refl))
entry_from (arch_prctl set_cpuid) rest r live e = (refl, (_, refl))
entry_from (arch_prctl _) rest r live e = (refl, (_, refl))

-- Whatever calls the object of an open, openat, waitid or arch_prctl has been through, after the next
-- entry every pointer to a parameter or to the return item can be followed, an optional member holds
-- an item just if it is one of these, and a second pass is asked for if there are more parameters than
-- the fixed ones. For an unknown id type of waitid only the fixed parameter is there.
pub extra_entry-Kept :
    (x : Extra) (l : Layout)
    → StartsWith (extra_fixed x) l
    → ReturnsFixed x l.ret
    → Kept (extra_optional x) (extra_fixed x) (extra_entry x l)
extra_entry-Kept x l (rest, p) e = rw p (entry_from x rest l.ret l.live e)
