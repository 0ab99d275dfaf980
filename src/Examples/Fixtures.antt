-- ===== src/Examples/Fixtures.antt =====
-- A small world: one tracee, in a system call or before one, and a kernel with fixed answers.
use clues.Common.{true, false, none, some, [], ◌∷◌}
use clues.Outcome.{Response, ok}
use clues.Abi.{arch_x86_64, Op, x86_64}
use clues.Tracee.State.{Env, Tracee, Local, State, foreign, no_flags, running, syscall, exit_status}
use clues.Engine.World.{World, no_data}
use clues.Examples.Values.{read_call, quiet_hooks, on_x86_64, plus_one}

-- A kernel that reports this system call info, and answers a detach in this way.
abbrev pub kernel : Op → Response (Unit {0}) → Env
kernel op detached = record {
  get_syscall_info = λ n pid. ok (op, arch_x86_64);
  get_sig_info = λ n pid. ok 18;
  get_exit_event_msg = λ n pid. ok (exit_status 0);
  get_pid_event_msg = λ n pid. ok 100;
  detach = λ n pid. detached;
  interrupt = λ n pid. ok tt;
  seize = λ n pid. ok tt;
  restart = λ n pid. ok tt;
  send_signal = λ n pid. ok tt;
  wait_child = λ n pid. ok tt;
  which = λ args. true;
  spawn = λ args n pid. ok 100;
  wait_stopped = λ n pid. ok tt;
  get_registers = λ abi n pid. ok (some (record { abi = x86_64; nr = 0; pars = [] }));
  exe_link = λ n pid. none;
  cmdline_file = λ n pid. none;
  open_fds = λ n pid. none;
  fd_infos = λ n pid. ok [];
  tasks = λ n pid. ok [];
  signaled_event = λ e. false;
  tables = plus_one;
  build = on_x86_64;
  hooks = λ c. quiet_hooks;
  new_call = λ nr. record read_call { nr = nr };
  is_cached = λ nr. true;
  clone_flags = λ c. record { thread = false; share_files = false };
  clone3_flags = λ c. none;
}

abbrev pub tracee : Tracee
tracee = record {
  id = 1;
  kind = foreign;
  pid = some 100;
  state = running;
  prev_state = State.event_stop;
  flags = no_flags;
  follow_children = false;
  syscall_info = none;
  syscall_db = (1, 0) ∷ [];
  current_syscall = none;
  interrupted_syscall = none;
  restart_mode = syscall;
  inject_sig = none;
  exit_data = none;
  initial_attacher = none;
  syscall_ctr = 0;
  initial_regset = record { abi = x86_64; nr = 0; pars = [] };
  stop_signal = none;
  process_data = 0;
  child_running = false;
}

abbrev pub local : Tracee → Local
local t = record {
  tracee = t;
  process = no_data;
  heap = λ r. read_call;
  next_call = 1;
  log = [];
  clock = 0;
}

-- The tracee is object 1, and stands under its process id.
abbrev pub world : Tracee → World
world t = record {
  tracees = (100, 1) ∷ [];
  unknown_events = [];
  newly_attached = none;
  objects = λ i. t;
  next_object = 2;
  datas = λ i. no_data;
  next_data = 1;
  heap = λ r. read_call;
  next_call = 1;
  log = [];
  clock = 0;
}
