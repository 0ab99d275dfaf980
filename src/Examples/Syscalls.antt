-- ===== src/Examples/Syscalls.antt =====
-- Concrete calls of single classes.
use clues.Common.{◌≡◌, refl, Bool, true, false, some, List, [], ◌∷◌}
use clues.Common.Maps
use clues.Fd.{FdType, FdInfo, FdInfoMap, file, no_flags, read_only, new_fd_info, find_fd}
use clues.Fd.Tracking.{IsKeyed}
use clues.Abi.{x86_64}
use clues.Syscalls.{setpipe_sz}
use clues.Syscalls.Files.{dup_tracking}
use clues.Syscalls.Dispatch.{Call}
use clues.Syscalls.Opened.{opened}
use clues.Syscalls.Refinement.{track_calls, kernel_run, track_calls-refines}
use clues.Syscalls.Duplicates.{dup_tracking_lem}
use clues.Syscalls.Members.{Member}
use clues.Syscalls.Layout.{Layout, after, Kept}
use clues.Syscalls.Fcntl.{fcntl_optional, fcntl_fixed, fcntl_entry, fcntl_entry-Kept}
use clues.Syscalls.Futex.{futex_fixed, futex_entry, wake_bitset, FutexEntry, futex_entry_lem}
use clues.Syscalls.Clone.{CloneFlags, clone_fixed, clone_entry, CloneEntry, clone_entry_lem}
use clues.Syscalls.FAdvise.{FAdvise, native_pars}
use clues.Syscalls.Prctl.{ProcessOp, SubOps, create_prctl_syscall, map_size, is_set}
use clues.Syscalls.PrctlObjects.{EntryOk, created_entry, created_entry_lem}
use clues.Syscalls.Socketcall.{
  SubCall, Transfers, fills_of, create_socket_call, num_socketcall_args,
}
use clues.Syscalls.Transfers.{transfer_values_lem}

-- A process with one open file, which is closed on an exec.
abbrev log_file : FdInfo
log_file = record (new_fd_info FdType.fs_path (file 3)) {
  path = "/var/log/messages";
  mode = some read_only;
  flags = some (record no_flags { cloexec = true });
}

abbrev one_file : FdInfoMap
one_file = (3, log_file) ∷ []

one_file-IsKeyed : IsKeyed one_file
unfolding new_fd_info
one_file-IsKeyed = record { sorted = tt; own = (refl, tt) }

-- The file is copied, a pipe is opened, and the file is closed.
abbrev calls : List Call
calls = Call.dup (file 3) (file 4) ∷ Call.pipe (file 5) (file 6) ∷ Call.close (file 3) ∷ []

track_calls-refines_example :
    opened (track_calls calls one_file) ≡ kernel_run calls (opened one_file)
unfolding find_fd Maps.find
track_calls-refines_example =
    track_calls-refines calls one_file one_file-IsKeyed (refl, (tt, (tt, tt)))

-- dup2(3, 3) and the like: the entry of a known target stays.
dup_tracking_lem_example :
    Maps.find 4 (dup_tracking (file 3) (file 4) one_file) ≡ some (record log_file { fd = file 4 })
unfolding find_fd Maps.find
dup_tracking_lem_example = dup_tracking_lem (file 3) 4 4 log_file one_file tt refl

-- An object that was last used for another operation, with one more parameter.
abbrev used : List Member → Member → Layout
used fixed r = after fixed (Member.flock_arg ∷ []) (some r) (λ m. true)

fcntl_entry-Kept_example :
    Kept fcntl_optional fcntl_fixed (fcntl_entry setpipe_sz (used fcntl_fixed Member.result))
fcntl_entry-Kept_example =
    fcntl_entry-Kept setpipe_sz (used fcntl_fixed Member.result) (Member.flock_arg ∷ [], refl)

futex_entry_lem_example : FutexEntry (futex_entry wake_bitset (used futex_fixed Member.result))
futex_entry_lem_example =
    futex_entry_lem wake_bitset (used futex_fixed Member.result) (Member.flock_arg ∷ [], refl)

abbrev thread_flags : CloneFlags
thread_flags = record { parent_settid = true; pidfd = false; child_settid = false; settls = true }

clone_entry_lem_example :
    CloneEntry x86_64 thread_flags
      (clone_entry x86_64 thread_flags (used clone_fixed Member.new_pid))
clone_entry_lem_example =
    clone_entry_lem x86_64 thread_flags (used clone_fixed Member.new_pid)
      (Member.flock_arg ∷ [], refl) refl

-- Objects that have been used on x86_64 so far.
abbrev separate : List Member → Layout
separate pars = record { pars = pars; ret = some Member.addr; live = λ m. false }

abbrev offset_or_size : Member → Bool
offset_or_size Member.offset = true
offset_or_size Member.size = true
offset_or_size _ = false

abbrev native : FAdvise
native = record {
  layout = record { pars = native_pars; ret = some Member.result; live = offset_or_size };
  native_64 = true;
}

abbrev size_query : SubOps
size_query = record { mm = map_size; ambient = is_set; is_on = false }

created_entry_lem_example :
    EntryOk (create_prctl_syscall ProcessOp.set_mm) (created_entry ProcessOp.set_mm size_query)
created_entry_lem_example = created_entry_lem ProcessOp.set_mm size_query

transfer_values_lem_example :
    Transfers SubCall.bind
      (3 ∷ 4096 ∷ 16 ∷ [])
      (fills_of (create_socket_call SubCall.bind) (3 ∷ 4096 ∷ 16 ∷ []))
unfolding num_socketcall_args
transfer_values_lem_example = transfer_values_lem SubCall.bind (3 ∷ 4096 ∷ 16 ∷ []) refl
