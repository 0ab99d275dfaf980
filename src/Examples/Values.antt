-- ===== src/Examples/Values.antt =====
-- Concrete inputs for file descriptors, memory, errnos, ABIs and the items of system calls.
use clues.Common.{
  ℕ, ◌≡◌, ◌↔◌, refl, true, false, none, some, List, [], ◌∷◌, inl, arith, get_elem?, suc, ◌==◌,
  if◌then◌else◌,
}
use clues.Fd.{FdInfo, FdInfoMap, pipe, file}
use clues.Fd.Tracking.{IsKeyed}
use clues.Fd.Exec.{sync_fds_after_exec, sync_fds_after_exec_exact}
use clues.Memory.{Peek, word, error, finished, read_vector, items, number, Container}
use clues.Memory.Vectors.{read_vector_lem, read_vector_unlimited}
use clues.Abi.{Build, Tables, SystemCallInfo, unknown, x86_64, arch_x86_64, entry, exit_value}
use clues.Calls.{
  Item, param_in, param_out, retval, SystemCall, Hooks, fill_parameters, set_exit_info,
  process_data, process_return, update_data, post_system_call, needs_update, has_result_value,
}
use clues.Calls.Order.{fill_parameters_lem}
use clues.Calls.Results.{set_exit_info_lem, exit_calls}

-- File descriptors.
abbrev pipe_end : ℕ → FdInfo
pipe_end n = record {
  type = pipe;
  fd = file n;
  path = "";
  mode = none;
  flags = none;
  inode = none;
  sock_domain = none;
  sock_type = none;
}

abbrev pub two_ends : FdInfoMap
two_ends = (3, pipe_end 3) ∷ (5, pipe_end 5) ∷ []

two_ends-IsKeyed : IsKeyed two_ends
two_ends-IsKeyed = record { sorted = (omega arith, tt); own = (refl, (refl, tt)) }

-- Both descriptors are closed by the exec, and one of them stays.
sync_fds_after_exec_exact_example : (sync_fds_after_exec (some []) two_ends ≡ []) ↔ (true ≡ false)
sync_fds_after_exec_exact_example = sync_fds_after_exec_exact [] two_ends

-- Memory: one word can be read, at 8.
abbrev memory : ℕ → Peek
memory addr = if addr == 8 then word (7 ∷ 9 ∷ 0 ∷ 1 ∷ 1 ∷ 1 ∷ 1 ∷ 1 ∷ []) else error 5

abbrev one_word : List (List ℕ)
one_word = (7 ∷ 9 ∷ 0 ∷ 1 ∷ 1 ∷ 1 ∷ 1 ∷ 1 ∷ []) ∷ []

read_vector_lem_example :
    (r : Container) × (read_vector memory 4 1 8 (record { max = 5; stop_at_zero = true })
      ≡ finished r)
    × (r.content ≡ 7 ∷ 9 ∷ [])
unfolding items number
read_vector_lem_example =
    read_vector_lem memory 4 1 8 (record { max = 5; stop_at_zero = true }) one_word (refl, tt)
      (omega arith) (omega arith) (omega arith) (inl (omega arith))

read_vector_unlimited_example :
    (r : Container) × (read_vector memory 4 1 8 (record { max = 0; stop_at_zero = true })
      ≡ finished r)
    × (r.content ≡ 7 ∷ 9 ∷ [])
unfolding items number
read_vector_unlimited_example =
    read_vector_unlimited memory 4 1 8 one_word (refl, tt) (omega arith) (omega arith) (omega arith)

-- An errno of the kernel.
-- A system call of x86_64.
abbrev pub on_x86_64 : Build
on_x86_64 = record { on_x32 = false; on_x86_64 = true; on_i386 = false; on_aarch64 = false }

abbrev pub plus_one : Tables
plus_one = record { to_generic = λ abi nr. suc nr; is_x32 = λ nr. false }

abbrev pub write_info : SystemCallInfo
write_info = record {
  op = entry 1 (1 ∷ 2 ∷ 3 ∷ []);
  arch = arch_x86_64;
  generic = 0;
  native = none;
  abi = unknown;
}

abbrev write_numbered : SystemCallInfo
write_numbered = record write_info { generic = 2; native = some (x86_64, 1); abi = x86_64 }

-- A system call with a deferred out parameter.
abbrev item : Item
item = record { type = param_in; defer_fill = false; unused = false; value = 0 }

abbrev pub read_call : SystemCall
read_call = record {
  nr = 1;
  busy = false;
  return_item = record item { type = retval };
  error = none;
  pars = record item { type = param_out; defer_fill = true } ∷ item ∷ [];
  abi = x86_64;
  calls = [];
}

abbrev pub quiet_hooks : Hooks
quiet_hooks = record {
  prepare_new_system_call = λ s. s;
  check_2nd_pass = λ s. (s, false);
  throws_at = λ c. none;
  update_fd_tracking = λ s fds. (two_ends, none);
}

fill_parameters_lem_example :
    let r = fill_parameters quiet_hooks (8 ∷ 9 ∷ []) read_call in
    (r.1 ≡ none)
    × (get_elem? r.0.pars 1 ≡ some (record item { value = 9 }))
    × (r.0.calls ≡ process_data 1 ∷ process_data 0 ∷ [])
fill_parameters_lem_example =
    fill_parameters_lem quiet_hooks (8 ∷ 9 ∷ []) read_call 1 (λ c. refl) (omega arith)

set_exit_info_lem_example :
    let r = set_exit_info quiet_hooks (exit_value 3) read_call [] in
    (r.2 ≡ none)
    × (has_result_value r.0 ≡ true)
    × (r.0.calls ≡ process_return ∷ update_data 0 ∷ post_system_call ∷ [])
    × (r.0.busy ≡ false)
    × (r.1 ≡ two_ends)
unfolding exit_calls needs_update
set_exit_info_lem_example =
    set_exit_info_lem quiet_hooks (exit_value 3) read_call [] (λ c. refl) (inl (3, refl))
