-- ===== src/Abi/Support.antt =====
-- Which system calls pass the checks of updateSysNr and verifyArch.
use clues.Common.{ℕ, ◌≡◌, true, false, some, List, arith}
use clues.Abi.{Build, Tables, SystemCallInfo, entry, update_sys_nr, verify_arch, is_supported_abi}

-- On an x86_64 tracer, a system call info that updateSysNr accepts and that verifyArch lets through
-- belongs to an ABI that is_supported_abi knows, and its numbers belong to that ABI: the generic one
-- is the translation of the native one by the table of that ABI.
pub update_sys_nr-supported :
    (b : Build) (t : Tables) (i j : SystemCallInfo) (native : ℕ) (args : List ℕ)
    → b.on_x86_64 ≡ true
    → b.on_aarch64 ≡ false
    → i.op ≡ entry native args
    → update_sys_nr t i ≡ some j
    → verify_arch b j ≡ true
    → (is_supported_abi b j.abi ≡ some true)
      × (j.native ≡ some (j.abi, native))
      × (j.generic ≡ t.to_generic j.abi native)
unfolding update_sys_nr verify_arch is_supported_abi
update_sys_nr-supported b t i j native args x a e u v = ground arith
