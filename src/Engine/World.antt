-- ===== src/Engine/World.antt =====
-- Everything that a run of the tracer changes, and the view of one tracee on it.
use clues.Common.{ℕ, suc, false, Option, none, List, [], ◌==◌, if◌then◌else◌}
use clues.Outcome.{M, returns, throws}
use clues.Abi
use clues.Calls.{SystemCall}
use clues.Tracee.State.{Tracee, ProcessData, ChildState, Effect, Local, Kind, State, no_flags, cont}

-- Engine: `m_tracees`, `m_unknown_events` and `m_newly_attached_pid`; and the objects that its
-- pointers lead to. Tracee 0 is the null pointer.
pub record World : Type 0 where
  pub tracees : List (ℕ × ℕ)
  pub unknown_events : List (ℕ × ChildState)
  pub newly_attached : Option ℕ
  pub objects : ℕ → Tracee
  pub next_object : ℕ
  pub datas : ℕ → ProcessData
  pub next_data : ℕ
  pub heap : ℕ → SystemCall
  pub next_call : ℕ
  pub log : List Effect
  pub clock : ℕ

abbrev pub null : ℕ
null = 0

abbrev pub put {ℓ} : {A : Type ℓ} → (ℕ → A) → ℕ → A → ℕ → A
put f i a j = if j == i then a else f j

-- What tracee `i` sees of the world, and the world after it has worked.
unfoldable pub focus : ℕ → World → Local
focus i w = record {
  tracee = w.objects i;
  process = w.datas ((w.objects i).process_data);
  heap = w.heap;
  next_call = w.next_call;
  log = w.log;
  clock = w.clock;
}

unfoldable pub restore : ℕ → World → Local → World
restore i w l = record w {
  objects = put w.objects i l.tracee;
  datas = put w.datas ((w.objects i).process_data) l.process;
  heap = l.heap;
  next_call = l.next_call;
  log = l.log;
  clock = l.clock;
}

-- A function of tracee `i`.
unfoldable pub on : ℕ → {A : Type 0} → M Local A → M World A
unfolding focus restore
on i m w = elim (m (focus i w)) [
  | returns a l ↦ returns a (restore i w l)
  | throws e l ↦ throws e (restore i w l)
]

abbrev pub change : ℕ → (Tracee → Tracee) → M World (Unit {0})
change i f w = returns tt (record w { objects = put w.objects i (f (w.objects i)) })

-- A fresh tracee of a kind, with a share of the process data `d`.
unfoldable pub new_tracee : Kind → ℕ → ℕ → Tracee
new_tracee kind i d = record {
  id = i;
  kind = kind;
  pid = none;
  state = State.unknown;
  prev_state = State.unknown;
  flags = no_flags;
  follow_children = false;
  syscall_info = none;
  syscall_db = [];
  current_syscall = none;
  interrupted_syscall = none;
  restart_mode = cont;
  inject_sig = none;
  exit_data = none;
  initial_attacher = none;
  syscall_ctr = 0;
  initial_regset = record { abi = Abi.i386; nr = 0; pars = [] };
  stop_signal = none;
  process_data = d;
  child_running = false;
}

abbrev pub no_data : ProcessData
no_data = record { executable = ""; cmdline = []; fd_info_map = [] }

-- The constructor: the process data of the sibling, or new ones.
unfoldable pub create : Kind → ℕ → M World ℕ
unfolding new_tracee
create kind sibling w =
    let i = w.next_object in
    let fresh = sibling == null in
    let d = if fresh then w.next_data else (w.objects sibling).process_data in
    returns i (record w {
      objects = put w.objects i (new_tracee kind i d);
      next_object = suc i;
      datas = if fresh then put w.datas d no_data else w.datas;
      next_data = if fresh then suc w.next_data else w.next_data;
    })

-- `unshareProcessData`: a copy of the process data.
unfoldable pub unshare_process_data : ℕ → M World (Unit {0})
unshare_process_data i w = returns tt (record w {
  datas = put w.datas w.next_data (w.datas ((w.objects i).process_data));
  objects = put w.objects i (record (w.objects i) { process_data = w.next_data });
  next_data = suc w.next_data;
})
