-- ===== src/Errno.antt =====
-- The errno result of a system call: src/ErrnoResult.cxx, include/ErrnoResult.hxx, KernelErrno of
-- include/types.hxx, and the labels of src/utils.cxx.
use clues.Common.{
  ℕ, ◌≤◌, ◌≡◌, ◌↔◌, String, Bool, true, false, ◌&&◌, Option, none, some, List, arith, leb, ◌==◌,
  if◌then◌else◌, is_some, get_elem?, length,
}

abbrev pub restart_sys : ℕ
restart_sys = 512

abbrev pub restart_nointr : ℕ
restart_nointr = 513

abbrev pub restart_nohand : ℕ
restart_nohand = 514

abbrev pub restart_restartblock : ℕ
restart_restartblock = 516

pub record ErrnoResult : Type 0 where
  pub errno : Option ℕ
  pub kernel_errno : Option ℕ

-- `ErrnoResult{code}`.
unfoldable pub errno_result : ℕ → ErrnoResult
errno_result code =
    if leb restart_sys code && leb code restart_restartblock
    then record { errno = none; kernel_errno = some code }
    else record { errno = some code; kernel_errno = none }

unfoldable pub has_error_code : ErrnoResult → Bool
has_error_code r = is_some r.errno

unfoldable pub has_kernel_error_code : ErrnoResult → Bool
has_kernel_error_code r = is_some r.kernel_errno

-- `get_kernel_errno_label`.
unfoldable pub get_kernel_errno_label : ℕ → String
get_kernel_errno_label err =
    if err == restart_sys
    then "RESTART_SYS"
    else if err == restart_nointr
    then "RESTART_NOINTR"
    else if err == restart_nohand
    then "RESTART_NOHAND"
    else if err == restart_restartblock
    then "RESTART_RESTARTBLOCK"
    else "?INVALID?"

abbrev pub or_invalid : Option String → String
or_invalid none = "E<INVALID>"
or_invalid (some s) = s

-- `get_errno_label` over the generated table ERRNO_NAMES; an errno is not negative here.
unfoldable pub get_errno_label : List String → ℕ → String
get_errno_label names num =
    if leb (length names) num then "E<INVALID>" else or_invalid (get_elem? names num)

-- The number and the label that `ErrnoResult::str` prints; the kernel's code is read where there is
-- no plain one.
abbrev kernel_part : Option ℕ → ℕ × String
kernel_part none = (0, get_kernel_errno_label 0)
kernel_part (some code) = (code, get_kernel_errno_label code)

abbrev plain_part : List String → Option ℕ → Option ℕ → ℕ × String
plain_part names none k = kernel_part k
plain_part names (some code) k = (code, get_errno_label names code)

unfoldable pub str_parts : List String → ErrnoResult → ℕ × String
str_parts names r = plain_part names r.errno r.kernel_errno

-- A code is kept whole: it is printed with its own number. It counts as the kernel's own exactly in
-- the range of the restart codes, and else as a plain errno, never as both.
pub errno_result_lem :
    (names : List String) (code : ℕ)
    → ((str_parts names (errno_result code)).0 ≡ code)
      × ((has_kernel_error_code (errno_result code) ≡ true) ↔ ((512 ≤ code) × (code ≤ 516)))
      × ((has_error_code (errno_result code) ≡ true)
          ↔ (has_kernel_error_code (errno_result code) ≡ false))
unfolding errno_result str_parts has_error_code has_kernel_error_code
errno_result_lem names code = ground arith
