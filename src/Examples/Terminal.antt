-- ===== src/Examples/Terminal.antt =====
-- Concrete inputs for the front end: two tracees, and a system call of the first on the current line.
use clues.Common.{◌≡◌, ◌↔◌, refl, true, false, none, some, List, [], ◌∷◌, ◌++◌, inl}
use clues.Termtracer.{
  ShownCall, Tracer, opened, pid_mark, run_callback, syscall_exit, current_syscall, exec_of,
  is_enabled,
}
use clues.Termtracer.Pars.{Par, print_pars_on_entry, print_pars_on_exit, all_pars, print_pars_lem}
use clues.Termtracer.Lines.{LinesMatch, UnlessFailed}
use clues.Termtracer.Execs.{run_callback-LinesMatch}
use clues.Termtracer.Assertions.{shown, syscall_exit-none}

abbrev read_call : ShownCall
read_call = record { nr = 0; abi = 1; is_exec = false; failed = false }

abbrev exec_call : ShownCall
exec_call = record { nr = 59; abi = 1; is_exec = true; failed = false }

-- The exec of the second tracee waits behind the open line of the first.
abbrev two_tracees : Tracer
two_tracees = record {
  active_syscall = some (10, read_call);
  unfinished_syscalls = (11, exec_call) ∷ [];
  new_tracees = [];
  num_tracees = 2;
  dropped_to_last_tracee = false;
  seen_initial_exec = true;
  main_tracee_pid = 10;
  main_status = none;
  last_abi = some 1;
  log = opened 10 0 ∷ pid_mark 10 ∷ [];
}

run_callback-LinesMatch_example :
    UnlessFailed (LinesMatch []) (run_callback [] 1 (exec_of 11 none true) two_tracees)
unfolding is_enabled current_syscall
run_callback-LinesMatch_example =
    run_callback-LinesMatch [] 1 (exec_of 11 none true) two_tracees (refl, refl, refl) (inl refl)

syscall_exit-none_example :
    (syscall_exit [] 12 read_call two_tracees ≡ none)
    ↔ ((shown [] read_call ≡ true) × (current_syscall 12 two_tracees ≡ none))
syscall_exit-none_example = syscall_exit-none [] 12 read_call two_tracees

-- An input, an output, and an input that is unused.
abbrev read_pars : List Par
read_pars =
    record { unused = false; is_in = true; label = 1 }
    ∷ record { unused = false; is_in = false; label = 2 }
    ∷ record { unused = true; is_in = true; label = 3 }
    ∷ []

print_pars_lem_example :
    print_pars_on_entry read_pars ++ print_pars_on_exit read_pars ≡ all_pars read_pars
print_pars_lem_example = print_pars_lem read_pars
