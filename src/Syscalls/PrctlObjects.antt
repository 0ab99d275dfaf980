-- ===== src/Syscalls/PrctlObjects.antt =====
-- The objects of prctl() by their class: the layout that the constructor leaves, the entry of a call,
-- and what both come to for each operation.
use clues.Common.{◌≡◌, refl, Bool, true, false, Option, none, some, List, [], ◌∷◌, ◌++◌}
use clues.Syscalls.Members.{Member}
use clues.Syscalls.Layout.{Layout, has_member, Checked, second_pass, one_pass, bad_call, Sound}
use clues.Syscalls.Prctl.{
  ProcessOp, PrctlClass, create_prctl_syscall, SubOps, MemoryMapOp, AmbientCapOp,
}
use clues.Syscalls.Prctl

-- The constructors: the parameters behind the operation, the return item, and the optional members
-- that have been emplaced.
abbrev constructed : List Member → Option Member → List Member → Layout
constructed pars r emplaced = record {
  pars = Member.op ∷ pars;
  ret = r;
  live = λ m. has_member m emplaced;
}

abbrev plain : List Member → Layout
plain pars = constructed pars (some Member.res) (Member.res ∷ [])

abbrev returning : Member → List Member → Layout
returning r pars = constructed pars (some r) []

unfoldable pub new_prctl : PrctlClass → Layout
new_prctl PrctlClass.cap_ambient_call = constructed (Member.ambient_op ∷ []) none []
new_prctl PrctlClass.cap_bset = constructed (Member.cap ∷ []) none []
new_prctl PrctlClass.prctl_call = constructed [] none []
new_prctl PrctlClass.get_child_sub_reaper = plain (Member.is_subreaper ∷ [])
new_prctl PrctlClass.machine_check_kill = plain (Member.mce_kill_op ∷ [])
new_prctl PrctlClass.machine_check_kill_get = returning Member.policy_res []
new_prctl PrctlClass.memory_map = plain (Member.mm_op ∷ [])
new_prctl PrctlClass.virtual_memory_attr =
    constructed (Member.attr ∷ Member.addr ∷ Member.size ∷ Member.name ∷ []) (some Member.res)
      (Member.res ∷ Member.name ∷ [])
new_prctl PrctlClass.name_call = plain []
new_prctl PrctlClass.parent_death_signal = plain []
new_prctl PrctlClass.set_p_tracer = plain (Member.pid ∷ [])
new_prctl PrctlClass.set_sec_comp = plain (Member.mode ∷ [])
new_prctl PrctlClass.set_secure_bits = plain (Member.bits ∷ [])
new_prctl PrctlClass.get_secure_bits = returning Member.bits []
new_prctl PrctlClass.get_speculation_control = returning Member.setting (Member.misfeature ∷ [])
new_prctl PrctlClass.set_speculation_control = plain (Member.misfeature ∷ Member.setting ∷ [])
new_prctl PrctlClass.set_syscall_user_dispatch_call = plain (Member.mode ∷ [])
new_prctl PrctlClass.set_tagged_addr_control = plain (Member.mode ∷ [])
new_prctl PrctlClass.get_tagged_addr_control = returning Member.mode []
new_prctl PrctlClass.set_thp_disable_call = plain (Member.thp_disable ∷ [])
new_prctl PrctlClass.get_thp_disable_call = returning Member.config []
new_prctl PrctlClass.get_tid_address_call = plain (Member.addr ∷ [])
new_prctl PrctlClass.set_timer_slack = plain (Member.slack ∷ [])
new_prctl PrctlClass.set_timing_mode = plain (Member.mode ∷ [])
new_prctl PrctlClass.get_timing_mode = returning Member.mode []
new_prctl PrctlClass.set_tsc_access = plain (Member.access ∷ [])
new_prctl PrctlClass.get_tsc_access = plain (Member.access ∷ [])
new_prctl PrctlClass.get_aux_vector =
    returning Member.filled_size (Member.aux_vector ∷ Member.buffer_size ∷ [])
new_prctl PrctlClass.set_mem_deny_write_exec = plain (Member.mask ∷ [])
new_prctl PrctlClass.get_mem_deny_write_exec = returning Member.mask []
new_prctl PrctlClass.unknown_prctl = plain (Member.unknown_par ∷ [])

-- The virtual functions of an entry; a class of its own parameters only derives from
-- FixedPrCtlSystemCall, whose functions do nothing.
unfoldable pub prctl_entry : PrctlClass → ProcessOp → SubOps → Layout → Checked
prctl_entry PrctlClass.prctl_call op s l = Prctl.prctl_check op (Prctl.prctl_prepare l)
prctl_entry PrctlClass.memory_map op s l = Prctl.memory_map_check s.mm (Prctl.memory_map_prepare l)
prctl_entry PrctlClass.machine_check_kill op s l =
    Prctl.machine_check_kill_check s.is_on (Prctl.machine_check_kill_prepare l)
prctl_entry PrctlClass.machine_check_kill_get op s l =
    one_pass (Prctl.machine_check_kill_get_prepare l)
prctl_entry PrctlClass.cap_ambient_call op s l =
    Prctl.cap_ambient_check s.ambient (Prctl.cap_ambient_prepare l)
prctl_entry PrctlClass.cap_bset op s l = Prctl.cap_bset_check op (Prctl.cap_bset_prepare l)
prctl_entry PrctlClass.name_call op s l = Prctl.name_check op (Prctl.name_prepare l)
prctl_entry PrctlClass.parent_death_signal op s l =
    Prctl.parent_death_signal_check op (Prctl.parent_death_signal_prepare l)
prctl_entry PrctlClass.set_sec_comp op s l =
    Prctl.set_sec_comp_check s.is_on (Prctl.set_sec_comp_prepare l)
prctl_entry PrctlClass.set_syscall_user_dispatch_call op s l =
    Prctl.set_user_dispatch_check s.is_on (Prctl.set_user_dispatch_prepare l)
prctl_entry PrctlClass.set_thp_disable_call op s l =
    Prctl.set_thp_disable_check s.is_on (Prctl.set_thp_disable_prepare l)
prctl_entry _ op s l = one_pass l

-- The optional members of each class.
abbrev base_optional : List Member
base_optional = Member.bool_setting ∷ Member.res ∷ Member.bool_res ∷ Member.int_res ∷ []

abbrev own_optional : PrctlClass → List Member
own_optional PrctlClass.memory_map =
    Member.addr ∷ Member.reported_size ∷ Member.exe_fd ∷ Member.mm_struct ∷ Member.mm_struct_size
    ∷ []
own_optional PrctlClass.machine_check_kill = Member.policy ∷ []
own_optional PrctlClass.cap_ambient_call = Member.cap ∷ []
own_optional PrctlClass.virtual_memory_attr = Member.name ∷ []
own_optional PrctlClass.name_call = Member.name ∷ []
own_optional PrctlClass.parent_death_signal = Member.new_signal ∷ Member.cur_signal ∷ []
own_optional PrctlClass.set_sec_comp = Member.filter ∷ []
own_optional PrctlClass.set_syscall_user_dispatch_call =
    Member.offset ∷ Member.size ∷ Member.on_off_switch ∷ []
own_optional PrctlClass.set_thp_disable_call = Member.flags ∷ []
own_optional _ = []

abbrev pub prctl_optional : PrctlClass → List Member
prctl_optional c = base_optional ++ own_optional c

-- An entry that throws nothing and leaves a sound layout; without a second pass it has the parameters
-- of the constructor.
abbrev pub EntryOk : PrctlClass → Checked → Type 0
EntryOk c (second_pass l) = Sound (prctl_optional c) l
EntryOk c (one_pass l) = Sound (prctl_optional c) l × (l.pars ≡ (new_prctl c).pars)
EntryOk c (bad_call l) = ⊥

abbrev pub created_entry : ProcessOp → SubOps → Checked
created_entry op s =
    prctl_entry (create_prctl_syscall op) op s (new_prctl (create_prctl_syscall op))

created_entry_from :
    (op : ProcessOp) (mm : MemoryMapOp) (a : AmbientCapOp) (b : Bool)
    → EntryOk
        (create_prctl_syscall op)
        (created_entry op (record { mm = mm; ambient = a; is_on = b }))
unfolding create_prctl_syscall new_prctl prctl_entry Prctl.prctl_prepare Prctl.prctl_check
    Prctl.memory_map_prepare Prctl.memory_map_check Prctl.machine_check_kill_prepare
    Prctl.machine_check_kill_check Prctl.machine_check_kill_get_prepare Prctl.cap_ambient_prepare
    Prctl.cap_ambient_check Prctl.cap_bset_prepare Prctl.cap_bset_check Prctl.name_prepare
    Prctl.name_check Prctl.parent_death_signal_prepare Prctl.parent_death_signal_check
    Prctl.set_sec_comp_prepare Prctl.set_sec_comp_check Prctl.set_user_dispatch_prepare
    Prctl.set_user_dispatch_check Prctl.set_thp_disable_prepare Prctl.set_thp_disable_check
created_entry_from ProcessOp.set_mm MemoryMapOp.address a b = refl
created_entry_from ProcessOp.set_mm MemoryMapOp.map_size a b = refl
created_entry_from ProcessOp.set_mm MemoryMapOp.exe_file a b = refl
created_entry_from ProcessOp.set_mm MemoryMapOp.map_all a b = refl
created_entry_from ProcessOp.set_mm MemoryMapOp.undefined a b = refl
created_entry_from ProcessOp.cap_ambient mm AmbientCapOp.clear_all b = refl
created_entry_from ProcessOp.cap_ambient mm AmbientCapOp.is_set b = refl
created_entry_from ProcessOp.cap_ambient mm AmbientCapOp.cap_other b = refl
created_entry_from ProcessOp.mce_kill mm a true = refl
created_entry_from ProcessOp.mce_kill mm a false = (refl, refl)
created_entry_from ProcessOp.set_seccomp mm a true = refl
created_entry_from ProcessOp.set_seccomp mm a false = (refl, refl)
created_entry_from ProcessOp.set_syscall_user_dispatch mm a true = refl
created_entry_from ProcessOp.set_syscall_user_dispatch mm a false = (refl, refl)
created_entry_from ProcessOp.set_thp_disable mm a true = refl
created_entry_from ProcessOp.set_thp_disable mm a false = (refl, refl)
created_entry_from ProcessOp.capbset_read mm a b = refl
created_entry_from ProcessOp.capbset_drop mm a b = refl
created_entry_from ProcessOp.set_name mm a b = refl
created_entry_from ProcessOp.get_name mm a b = refl
created_entry_from ProcessOp.set_pdeathsig mm a b = refl
created_entry_from ProcessOp.get_pdeathsig mm a b = refl
created_entry_from ProcessOp.get_timerslack mm a b = refl
created_entry_from ProcessOp.task_perf_events_enable mm a b = refl
created_entry_from ProcessOp.task_perf_events_disable mm a b = refl
created_entry_from ProcessOp.get_dumpable mm a b = refl
created_entry_from ProcessOp.set_dumpable mm a b = refl
created_entry_from ProcessOp.get_io_flusher mm a b = refl
created_entry_from ProcessOp.set_io_flusher mm a b = refl
created_entry_from ProcessOp.get_no_new_privs mm a b = refl
created_entry_from ProcessOp.set_no_new_privs mm a b = refl
created_entry_from ProcessOp.get_keepcaps mm a b = refl
created_entry_from ProcessOp.set_keepcaps mm a b = refl
created_entry_from ProcessOp.set_child_subreaper mm a b = refl
created_entry_from ProcessOp.get_seccomp mm a b = refl
created_entry_from _ mm a b = (refl, refl)

-- For every operation of prctl and all values of the parameters behind it, the entry of the object that
-- the factory creates for it throws nothing: the class that is chosen knows the operation. Afterwards
-- every pointer to a parameter can be followed, the return item is there, an optional member holds an
-- item just if it is a parameter or the return item, and a second pass is asked for if the parameters
-- are not those of the constructor.
pub created_entry_lem :
    (op : ProcessOp) (s : SubOps) → EntryOk (create_prctl_syscall op) (created_entry op s)
created_entry_lem op s = created_entry_from op s.mm s.ambient s.is_on
