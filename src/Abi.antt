-- ===== src/Abi.antt =====
-- System call ABIs: ABI of include/types.hxx, the ABI helpers of include/utils.hxx and src/utils.cxx,
-- src/SystemCallInfo.cxx with its header, and Tracee::verifyArch of src/Tracee.cxx.
pub mod Support
use clues.Common.{
  ℕ, zero, suc, ◌+◌, ◌%◌, ◌^◌, ◌≡◌, refl, ◌↔◌, ◌≢◌, Bool, true, false, ◌&&◌, ◌||◌, not, Option,
  none, some, List, [], ◌∷◌, arith, ◌==◌, leb, if◌then◌else◌, get_elem?, length, inl, inr, ◌⊎◌,
}
use clues.Outcome.{Exception, runtime_error, usage_error}

pub data Abi : Type 0 where
  unknown x86_64 i386 x32 aarch64 : Abi

pub Abi-discrete : Discrete Abi
Abi-discrete = hlevel

abbrev pub abi_eq : Abi → Abi → Bool
abi_eq unknown unknown = true
abi_eq x86_64 x86_64 = true
abi_eq i386 i386 = true
abi_eq x32 x32 = true
abi_eq aarch64 aarch64 = true
abi_eq _ _ = false

-- The constants cosmos::arch::* of the machine that the tracer is built for.
pub record Build : Type 0 where
  pub on_x32 : Bool
  pub on_x86_64 : Bool
  pub on_i386 : Bool
  pub on_aarch64 : Bool

unfoldable pub get_default_abi : Build → Abi
get_default_abi b =
    if b.on_x32
    then x32
    else if b.on_x86_64
    then x86_64
    else if b.on_i386
    then i386
    else if b.on_aarch64
    then aarch64
    else unknown

unfoldable pub is_default_abi : Build → Abi → Bool
is_default_abi b x86_64 = b.on_x86_64
is_default_abi b i386 = b.on_i386
is_default_abi b aarch64 = b.on_aarch64
is_default_abi b _ = false

unfoldable pub is_32bit_emulation_abi : Build → Abi → Bool
unfolding get_default_abi
is_32bit_emulation_abi b abi = abi_eq (get_default_abi b) x86_64 && abi_eq abi i386

-- `none` where no ABI is supported and the function throws.
unfoldable pub get_supported_abis : Build → Option (List Abi)
get_supported_abis b =
    if b.on_x86_64
    then some (i386 ∷ x86_64 ∷ x32 ∷ [])
    else if b.on_i386
    then some (i386 ∷ [])
    else if b.on_aarch64
    then some (aarch64 ∷ [])
    else none

abbrev pub abi_member : Abi → List Abi → Bool
abi_member a [] = false
abi_member a (x ∷ xs) = if abi_eq x a then true else abi_member a xs

abbrev member_of : Abi → Option (List Abi) → Option Bool
member_of abi none = none
member_of abi (some l) = some (abi_member abi l)

unfoldable pub is_supported_abi : Build → Abi → Option Bool
unfolding get_supported_abis
is_supported_abi b abi = member_of abi (get_supported_abis b)

-- cosmos::ptrace::Arch.
pub data Arch : Type 0 where
  arch_i386 arch_x86_64 arch_aarch64 arch_other : Arch

-- What PTRACE_GET_SYSCALL_INFO reports: an entry with the native number and the arguments, an exit
-- with a value or an errno, or neither.
pub data Op : Type 0 where
  entry : ℕ → List ℕ → Op
  exit_value : ℕ → Op
  exit_error : ℕ → Op
  no_op : Op

pub record SystemCallInfo : Type 0 where
  pub op : Op
  pub arch : Arch
  pub generic : ℕ
  pub native : Option (Abi × ℕ)
  pub abi : Abi

abbrev pub is_entry_op : Op → Bool
is_entry_op (entry _ _) = true
is_entry_op _ = false

abbrev pub is_exit_op : Op → Bool
is_exit_op (exit_value _) = true
is_exit_op (exit_error _) = true
is_exit_op _ = false

-- SystemCallNr::UNKNOWN.
abbrev pub nr_unknown : ℕ
nr_unknown = 0

-- `SystemCallInfo{}` once the kernel has filled in its part.
unfoldable pub new_info : Op → Arch → SystemCallInfo
new_info op arch = record {
  op = op;
  arch = arch;
  generic = nr_unknown;
  native = none;
  abi = unknown;
}

-- The generated tables `to_generic`, one for each ABI, and cosmos' test for an x32 call.
pub record Tables : Type 0 where
  pub to_generic : Abi → ℕ → ℕ
  pub is_x32 : ℕ → Bool

abbrev pub detect_abi : Tables → Arch → ℕ → Option Abi
detect_abi t arch_x86_64 native = some (if t.is_x32 native then x32 else x86_64)
detect_abi t arch_i386 native = some i386
detect_abi t arch_aarch64 native = some aarch64
detect_abi t arch_other native = none

abbrev pub with_abi : Tables → SystemCallInfo → ℕ → Option Abi → Option SystemCallInfo
with_abi t i native none = none
with_abi t i native (some a) =
    some (record i { abi = a; native = some (a, native); generic = t.to_generic a native })

abbrev pub update_op : Tables → SystemCallInfo → Op → Option SystemCallInfo
update_op t i (entry native args) = with_abi t i native (detect_abi t i.arch native)
update_op t i _ = none

-- `updateSysNr`; `none` where it throws a RuntimeError.
unfoldable pub update_sys_nr : Tables → SystemCallInfo → Option SystemCallInfo
update_sys_nr t i = update_op t i i.op

-- `argAsWord`: a RuntimeError's sibling UsageError for a wrong state or number. Word has `bits` bits.
pub data ArgResult : Type 0 where
  arg : ℕ → ArgResult
  misused : ArgResult

abbrev pub arg_or_misused : ℕ → Option ℕ → ArgResult
arg_or_misused bits none = misused
arg_or_misused bits (some w) = arg (w % 2 ^ bits)

abbrev pub op_arg : ℕ → Op → ℕ → ArgResult
op_arg bits (entry native args) nr =
    if leb (length args) nr then misused else arg_or_misused bits (get_elem? args nr)
op_arg bits _ nr = misused

unfoldable pub arg_as_word : ℕ → SystemCallInfo → ℕ → ArgResult
arg_as_word bits i nr = op_arg bits i.op nr

-- `verifyArch`: whether the call goes through, and does not throw.
abbrev pub arch_supported : Build → Arch → Bool
arch_supported b arch_i386 = true
arch_supported b arch_x86_64 = b.on_x86_64
arch_supported b arch_aarch64 = b.on_aarch64
arch_supported b arch_other = false

unfoldable pub verify_arch : Build → SystemCallInfo → Bool
verify_arch b i = arch_supported b i.arch
