-- ===== src/Tracee/State/Data.antt =====
-- The data of a tracee, and what the kernel and the proc file system answer: include/Tracee.hxx,
-- include/ProcessData.hxx, include/EventConsumer.hxx and include/RegisterSet.hxx.
use clues.Common.{ℕ, String, Bool, true, false, Option, List}
use clues.Outcome.{Response}
use clues.Abi.{Abi, Arch, Op, SystemCallInfo, Build, Tables}
use clues.Calls.{SystemCall, Hooks}
use clues.Fd.{FdInfo, FdInfoMap}

pub data State : Type 0 where
  unknown running syscall_enter_stop syscall_exit_stop signal_delivery_stop group_stop : State
  event_stop dead detached : State

pub State-discrete : Discrete State
State-discrete = hlevel

abbrev pub is_running : State → Bool
is_running running = true
is_running _ = false

abbrev pub is_unknown : State → Bool
is_unknown unknown = true
is_unknown _ = false

abbrev pub is_group_stop : State → Bool
is_group_stop group_stop = true
is_group_stop _ = false

abbrev pub is_enter_stop : State → Bool
is_enter_stop syscall_enter_stop = true
is_enter_stop _ = false

-- DEAD or DETACHED.
abbrev pub is_gone : State → Bool
is_gone dead = true
is_gone detached = true
is_gone _ = false

-- Tracee::Flags.
pub record Flags : Type 0 where
  pub wait_for_attach_stop : Bool
  pub detach_at_next_stop : Bool
  pub injected_sigstop : Bool
  pub injected_sigcont : Bool
  pub syscall_entered : Bool
  pub wait_for_exited : Bool
  pub attach_threads_pending : Bool
  pub seen_sigreturn : Bool

abbrev pub no_flags : Flags
no_flags = record {
  wait_for_attach_stop = false;
  detach_at_next_stop = false;
  injected_sigstop = false;
  injected_sigcont = false;
  syscall_entered = false;
  wait_for_exited = false;
  attach_threads_pending = false;
  seen_sigreturn = false;
}

-- cosmos::Tracee::RestartMode.
pub data RestartMode : Type 0 where
  cont syscall listen : RestartMode

abbrev pub is_listen : RestartMode → Bool
is_listen listen = true
is_listen _ = false

-- The classes derived from Tracee.
pub data Kind : Type 0 where
  child foreign auto_attached : Kind

abbrev pub is_child : Kind → Bool
is_child child = true
is_child _ = false

-- cosmos::ptrace::Event.
pub data PtraceEvent : Type 0 where
  event_stopped exit exec clone vfork fork vfork_done seccomp : PtraceEvent

-- The signal of a trap, decoded: SYS_TRAP, an event stop with its event and signal, or a signal.
pub data TrapSignal : Type 0 where
  sys_trap : TrapSignal
  event_trap : PtraceEvent → ℕ → TrapSignal
  delivery : ℕ → TrapSignal

-- cosmos::ChildState.
pub data ChildEvent : Type 0 where
  exited killed dumped stopped continued : ℕ → ChildEvent
  trapped : TrapSignal → ChildEvent

pub record ChildState : Type 0 where
  pub pid : ℕ
  pub event : ChildEvent

-- cosmos::WaitStatus of an exit event: a regular exit with a status, or death by a signal.
pub data WaitStatus : Type 0 where
  exit_status : ℕ → WaitStatus
  term_signal : ℕ → WaitStatus

-- EventConsumer::StatusFlags.
pub record StatusFlags : Type 0 where
  pub interrupted : Bool
  pub resumed : Bool
  pub lost_to_mt_exit : Bool
  pub abi_changed : Bool
  pub cloned_thread : Bool

abbrev pub no_status : StatusFlags
no_status = record {
  interrupted = false;
  resumed = false;
  lost_to_mt_exit = false;
  abi_changed = false;
  cloned_thread = false;
}

-- Data shared by the tracees of a thread group. An argument is a row of bytes.
pub record ProcessData : Type 0 where
  pub executable : String
  pub cmdline : List (List ℕ)
  pub fd_info_map : FdInfoMap

-- A register set: its ABI, the native system call number and the parameters.
pub record RegisterSet : Type 0 where
  pub abi : Abi
  pub nr : ℕ
  pub pars : List ℕ

-- Tracee; `id` is the object's identity, and system calls are named by their place in the heap.
pub record Tracee : Type 0 where
  pub id : ℕ
  pub kind : Kind
  pub pid : Option ℕ
  pub state : State
  pub prev_state : State
  pub flags : Flags
  pub follow_children : Bool
  pub syscall_info : Option SystemCallInfo
  pub syscall_db : List (ℕ × ℕ)
  pub current_syscall : Option ℕ
  pub interrupted_syscall : Option ℕ
  pub restart_mode : RestartMode
  pub inject_sig : Option ℕ
  pub exit_data : Option ChildState
  pub initial_attacher : Option ℕ
  pub syscall_ctr : ℕ
  pub initial_regset : RegisterSet
  pub stop_signal : Option ℕ
  pub process_data : ℕ
  pub child_running : Bool

-- What the consumer, the kernel and other processes get to see, in order. A tracee is named by its id.
pub data Effect : Type 0 where
  syscall_entry syscall_exit : ℕ → ℕ → StatusFlags → Effect
  attached stopped_by_signal resumed_by_signal : ℕ → Effect
  signaled : ℕ → ℕ → Effect
  exit_seen : ℕ → WaitStatus → StatusFlags → Effect
  disappeared : ℕ → ChildState → Effect
  new_execution_context : ℕ → String → List (List ℕ) → Option ℕ → Effect
  new_child_process : ℕ → ℕ → PtraceEvent → StatusFlags → Effect
  vfork_complete : ℕ → Option ℕ → Effect
  restarted : ℕ → RestartMode → Option ℕ → Effect
  signal_sent : Option ℕ → ℕ → Effect
  detach_sent : Option ℕ → Effect

-- The part of the world that the functions of one tracee work on.
pub record Local : Type 0 where
  pub tracee : Tracee
  pub process : ProcessData
  pub heap : ℕ → SystemCall
  pub next_call : ℕ
  pub log : List Effect
  pub clock : ℕ

-- The flags of clone() and clone3() that the library looks at.
pub record CloneFlags : Type 0 where
  pub thread : Bool
  pub share_files : Bool

-- Everything outside: the kernel's answers to ptrace requests by the number of requests made before
-- and the process id, the proc file system, the classes of the single system calls and the tables.
pub record Env : Type 0 where
  pub get_syscall_info : ℕ → Option ℕ → Response (Op × Arch)
  pub get_sig_info : ℕ → Option ℕ → Response ℕ
  pub get_exit_event_msg : ℕ → Option ℕ → Response WaitStatus
  pub get_pid_event_msg : ℕ → Option ℕ → Response ℕ
  pub detach : ℕ → Option ℕ → Response (Unit {0})
  pub interrupt : ℕ → Option ℕ → Response (Unit {0})
  pub seize : ℕ → Option ℕ → Response (Unit {0})
  pub restart : ℕ → Option ℕ → Response (Unit {0})
  pub send_signal : ℕ → Option ℕ → Response (Unit {0})
  pub wait_child : ℕ → Option ℕ → Response (Unit {0})
  pub which : List (List ℕ) → Bool
  pub spawn : List (List ℕ) → ℕ → Option ℕ → Response ℕ
  pub wait_stopped : ℕ → Option ℕ → Response (Unit {0})
  pub get_registers : Abi → ℕ → Option ℕ → Response (Option RegisterSet)
  pub exe_link : ℕ → Option ℕ → Option String
  pub cmdline_file : ℕ → Option ℕ → Option (List ℕ)
  pub open_fds : ℕ → Option ℕ → Option (List ℕ)
  pub fd_infos : ℕ → Option ℕ → Response (List FdInfo)
  pub tasks : ℕ → Option ℕ → Response (List ℕ)
  pub signaled_event : ChildEvent → Bool
  pub tables : Tables
  pub build : Build
  pub hooks : SystemCall → Hooks
  pub new_call : ℕ → SystemCall
  pub is_cached : ℕ → Bool
  pub clone_flags : SystemCall → CloneFlags
  pub clone3_flags : SystemCall → Option CloneFlags
