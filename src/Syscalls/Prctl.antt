-- ===== src/Syscalls/Prctl.antt =====
-- prctl() of src/syscalls/prctl.cxx and include/syscalls/prctl.hxx: the class of the object for an
-- operation, and the parameters and the return item of an object of each class.
use clues.Common.{Bool, true, false, Option, none, some, List, [], ◌∷◌}
use clues.Syscalls.Members.{Member}
use clues.Syscalls.Layout.{
  Layout, reset_all, drop_parameters, add_parameters, emplace, with_parameter, with_return, reset,
  Checked, second_pass, one_pass, bad_call,
}

-- item::ProcessOp::Operation; `unhandled` stands for the operations that the factory does not name.
pub data ProcessOp : Type 0 where
  cap_ambient capbset_read capbset_drop set_child_subreaper get_child_subreaper set_dumpable
        get_dumpable :
      ProcessOp
  set_io_flusher get_io_flusher set_keepcaps get_keepcaps mce_kill mce_kill_get set_mm set_vma
        set_name get_name :
      ProcessOp
  set_no_new_privs get_no_new_privs set_pdeathsig get_pdeathsig set_ptracer set_seccomp get_seccomp
        set_securebits :
      ProcessOp
  get_securebits get_speculation_ctrl set_speculation_ctrl set_syscall_user_dispatch
        set_tagged_addr_ctrl :
      ProcessOp
  get_tagged_addr_ctrl task_perf_events_disable task_perf_events_enable set_thp_disable
        get_thp_disable :
      ProcessOp
  get_tid_address set_timerslack get_timerslack set_timing get_timing set_tsc get_tsc get_auxv
        set_mdwe get_mdwe :
      ProcessOp
  unhandled : ProcessOp

-- The classes: PrCtlSystemCall, UnknownPrCtlSystemCall, and those of the namespace prctl.
pub data PrctlClass : Type 0 where
  cap_ambient_call cap_bset prctl_call get_child_sub_reaper machine_check_kill : PrctlClass
  machine_check_kill_get memory_map virtual_memory_attr name_call parent_death_signal : PrctlClass
  set_p_tracer set_sec_comp set_secure_bits get_secure_bits get_speculation_control : PrctlClass
  set_speculation_control set_syscall_user_dispatch_call set_tagged_addr_control
        get_tagged_addr_control set_thp_disable_call :
      PrctlClass
  get_thp_disable_call get_tid_address_call set_timer_slack set_timing_mode get_timing_mode :
      PrctlClass
  set_tsc_access get_tsc_access get_aux_vector set_mem_deny_write_exec get_mem_deny_write_exec :
      PrctlClass
  unknown_prctl : PrctlClass

-- `create_prctl_syscall`.
unfoldable pub create_prctl_syscall : ProcessOp → PrctlClass
create_prctl_syscall cap_ambient = cap_ambient_call
create_prctl_syscall capbset_read = cap_bset
create_prctl_syscall capbset_drop = cap_bset
create_prctl_syscall set_child_subreaper = prctl_call
create_prctl_syscall get_child_subreaper = get_child_sub_reaper
create_prctl_syscall set_dumpable = prctl_call
create_prctl_syscall get_dumpable = prctl_call
create_prctl_syscall set_io_flusher = prctl_call
create_prctl_syscall get_io_flusher = prctl_call
create_prctl_syscall set_keepcaps = prctl_call
create_prctl_syscall get_keepcaps = prctl_call
create_prctl_syscall mce_kill = machine_check_kill
create_prctl_syscall mce_kill_get = machine_check_kill_get
create_prctl_syscall set_mm = memory_map
create_prctl_syscall set_vma = virtual_memory_attr
create_prctl_syscall set_name = name_call
create_prctl_syscall get_name = name_call
create_prctl_syscall set_no_new_privs = prctl_call
create_prctl_syscall get_no_new_privs = prctl_call
create_prctl_syscall set_pdeathsig = parent_death_signal
create_prctl_syscall get_pdeathsig = parent_death_signal
create_prctl_syscall set_ptracer = set_p_tracer
create_prctl_syscall set_seccomp = set_sec_comp
create_prctl_syscall get_seccomp = prctl_call
create_prctl_syscall set_securebits = set_secure_bits
create_prctl_syscall get_securebits = get_secure_bits
create_prctl_syscall get_speculation_ctrl = get_speculation_control
create_prctl_syscall set_speculation_ctrl = set_speculation_control
create_prctl_syscall set_syscall_user_dispatch = set_syscall_user_dispatch_call
create_prctl_syscall set_tagged_addr_ctrl = set_tagged_addr_control
create_prctl_syscall get_tagged_addr_ctrl = get_tagged_addr_control
create_prctl_syscall task_perf_events_disable = prctl_call
create_prctl_syscall task_perf_events_enable = prctl_call
create_prctl_syscall set_thp_disable = set_thp_disable_call
create_prctl_syscall get_thp_disable = get_thp_disable_call
create_prctl_syscall get_tid_address = get_tid_address_call
create_prctl_syscall set_timerslack = set_timer_slack
create_prctl_syscall get_timerslack = prctl_call
create_prctl_syscall set_timing = set_timing_mode
create_prctl_syscall get_timing = get_timing_mode
create_prctl_syscall set_tsc = set_tsc_access
create_prctl_syscall get_tsc = get_tsc_access
create_prctl_syscall get_auxv = get_aux_vector
create_prctl_syscall set_mdwe = set_mem_deny_write_exec
create_prctl_syscall get_mdwe = get_mem_deny_write_exec
create_prctl_syscall unhandled = unknown_prctl

-- item::MemoryMapOp, in the groups of MemoryMapSystemCall; `undefined` is any other number.
pub data MemoryMapOp : Type 0 where
  address map_size exe_file map_all undefined : MemoryMapOp

-- item::AmbientCapOp; `cap_other` is RAISE, LOWER, or any other number.
pub data AmbientCapOp : Type 0 where
  clear_all is_set cap_other : AmbientCapOp

-- The values of the parameters behind the operation: the two above, whether MachineCheckOp is SET,
-- whether the mode of seccomp is FILTER or that of the dispatch is DISPATCH_ON, and `thp_disable`.
pub record SubOps : Type 0 where
  pub mm : MemoryMapOp
  pub ambient : AmbientCapOp
  pub is_on : Bool

-- `clearOptArgs`, `clearOptRetVals`, `setBoolReturn`, `setSuccessReturn`.
abbrev pub clear_opt_args : Layout → Layout
clear_opt_args l = reset Member.bool_setting l

abbrev pub clear_opt_ret_vals : Layout → Layout
clear_opt_ret_vals l = reset_all (Member.res ∷ Member.bool_res ∷ Member.int_res ∷ []) l

abbrev pub set_bool_return : Layout → Layout
set_bool_return l = with_return Member.bool_res l

abbrev pub set_success_return : Layout → Layout
set_success_return l = with_return Member.res l

-- PrCtlSystemCall: `prepareNewSystemCall` and `check2ndPass`.
unfoldable pub prctl_prepare : Layout → Layout
prctl_prepare l = clear_opt_ret_vals (clear_opt_args (record (drop_parameters 1 l) { ret = none }))

abbrev bool_par : Layout → Layout
bool_par l = with_parameter Member.bool_setting l

abbrev prctl_switch : ProcessOp → Layout → Layout
prctl_switch get_dumpable l = set_bool_return l
prctl_switch get_io_flusher l = set_bool_return l
prctl_switch get_no_new_privs l = set_bool_return l
prctl_switch get_keepcaps l = set_bool_return l
prctl_switch set_dumpable l = bool_par l
prctl_switch set_io_flusher l = bool_par l
prctl_switch set_child_subreaper l = bool_par l
prctl_switch set_no_new_privs l = bool_par l
prctl_switch set_keepcaps l = bool_par l
prctl_switch get_seccomp l = with_return Member.int_res l
prctl_switch get_timerslack l = with_return Member.int_res l
prctl_switch _ l = l

abbrev default_return : Option Member → Layout → Layout
default_return none l = set_success_return l
default_return (some r) l = l

abbrev with_default : Layout → Layout
with_default l = default_return l.ret l

unfoldable pub prctl_check : ProcessOp → Layout → Checked
prctl_check op l = second_pass (with_default (prctl_switch op l))

-- MemoryMapSystemCall.
abbrev mm_args : List Member
mm_args =
    Member.addr ∷ Member.reported_size ∷ Member.exe_fd ∷ Member.mm_struct ∷ Member.mm_struct_size
    ∷ []

unfoldable pub memory_map_prepare : Layout → Layout
memory_map_prepare l = reset_all mm_args (clear_opt_args (drop_parameters 2 l))

unfoldable pub memory_map_check : MemoryMapOp → Layout → Checked
memory_map_check address l = second_pass (with_parameter Member.addr l)
memory_map_check map_size l = second_pass (with_parameter Member.reported_size l)
memory_map_check exe_file l = second_pass (with_parameter Member.exe_fd l)
memory_map_check map_all l = second_pass (
    add_parameters (Member.mm_struct ∷ Member.mm_struct_size ∷ [])
      (emplace Member.mm_struct_size (emplace Member.mm_struct l)))
memory_map_check undefined l = second_pass l

-- MachineCheckKillSystemCall and MachineCheckKillGetSystemCall.
unfoldable pub machine_check_kill_prepare : Layout → Layout
machine_check_kill_prepare l = reset Member.policy (clear_opt_args (drop_parameters 2 l))

unfoldable pub machine_check_kill_check : Bool → Layout → Checked
machine_check_kill_check true l = second_pass (with_parameter Member.policy l)
machine_check_kill_check false l = one_pass l

unfoldable pub machine_check_kill_get_prepare : Layout → Layout
machine_check_kill_get_prepare l = clear_opt_args (drop_parameters 1 l)

-- CapAmbientSystemCall.
unfoldable pub cap_ambient_prepare : Layout → Layout
cap_ambient_prepare l = reset Member.cap (clear_opt_ret_vals (clear_opt_args (drop_parameters 2 l)))

unfoldable pub cap_ambient_check : AmbientCapOp → Layout → Checked
cap_ambient_check clear_all l = second_pass (set_success_return l)
cap_ambient_check is_set l = second_pass (set_bool_return (with_parameter Member.cap l))
cap_ambient_check cap_other l = second_pass (set_success_return (with_parameter Member.cap l))

-- CapBSetSystemCall: here `cap` is a fixed parameter.
unfoldable pub cap_bset_prepare : Layout → Layout
cap_bset_prepare l = clear_opt_ret_vals l

unfoldable pub cap_bset_check : ProcessOp → Layout → Checked
cap_bset_check capbset_read l = second_pass (set_bool_return l)
cap_bset_check capbset_drop l = second_pass (set_success_return l)
cap_bset_check _ l = bad_call l

-- NameSystemCall: `name` is not reset, only constructed anew.
unfoldable pub name_prepare : Layout → Layout
name_prepare l = drop_parameters 1 l

unfoldable pub name_check : ProcessOp → Layout → Checked
name_check get_name l = second_pass (with_parameter Member.name l)
name_check set_name l = second_pass (with_parameter Member.name l)
name_check _ l = bad_call l

-- ParentDeathSignalSystemCall.
unfoldable pub parent_death_signal_prepare : Layout → Layout
parent_death_signal_prepare l =
    reset_all (Member.new_signal ∷ Member.cur_signal ∷ []) (drop_parameters 1 l)

unfoldable pub parent_death_signal_check : ProcessOp → Layout → Checked
parent_death_signal_check get_pdeathsig l = second_pass (with_parameter Member.cur_signal l)
parent_death_signal_check set_pdeathsig l = second_pass (with_parameter Member.new_signal l)
parent_death_signal_check _ l = bad_call l

-- SetSecCompSystemCall, SetSyscallUserDispatchSystemCall, SetTHPDisableSystemCall.
unfoldable pub set_sec_comp_prepare : Layout → Layout
set_sec_comp_prepare l = drop_parameters 2 (reset Member.filter l)

unfoldable pub set_sec_comp_check : Bool → Layout → Checked
set_sec_comp_check true l = second_pass (with_parameter Member.filter l)
set_sec_comp_check false l = one_pass l

abbrev dispatch_args : List Member
dispatch_args = Member.offset ∷ Member.size ∷ Member.on_off_switch ∷ []

unfoldable pub set_user_dispatch_prepare : Layout → Layout
set_user_dispatch_prepare l = drop_parameters 2 (reset_all dispatch_args l)

unfoldable pub set_user_dispatch_check : Bool → Layout → Checked
set_user_dispatch_check true l = second_pass (
    add_parameters dispatch_args
      (emplace Member.on_off_switch (emplace Member.size (emplace Member.offset l))))
set_user_dispatch_check false l = one_pass l

unfoldable pub set_thp_disable_prepare : Layout → Layout
set_thp_disable_prepare l = reset Member.flags (drop_parameters 2 l)

unfoldable pub set_thp_disable_check : Bool → Layout → Checked
set_thp_disable_check true l = second_pass (with_parameter Member.flags l)
set_thp_disable_check false l = one_pass l
