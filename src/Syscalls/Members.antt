-- ===== src/Syscalls/Members.antt =====
-- The items that are members of the classes under include/syscalls.
use clues.Common.{ℕ}

-- The members that are items, over all classes; `unused` is `item::unused`.
pub data Member : Type 0 where
  fd operation dup_lowest fd_flags_arg status_flags_arg flock_arg owner_arg ext_owner_arg : Member
  io_signal_arg lease_arg dnotify_arg pipe_size_arg file_seals_arg rw_hint_arg : Member
  ret_dupfd ret_fd_flags ret_status_flags ret_owner ret_io_signal ret_lease ret_pipe_size ret_seals
        result :
      Member
  filename flags mode new_fd path buf size : Member
  futex_addr value wake_count fd_sig timeout futex2_addr requeue_value requeue_limit wake_count2
        wake_op bitset num_woken_up :
      Member
  stack parent_tid pidfd child_tid tls new_pid : Member
  idtype id_pid id_pgid id_pidfd siginfo options rusage : Member
  nfds readfds writefds exceptfds old_args nready : Member
  hint length protection offset addr advice offset64 offset64_lower size64 size64_lower : Member
  op bool_setting res bool_res int_res mm_op reported_size exe_fd mm_struct mm_struct_size : Member
  mce_kill_op policy policy_res ambient_op cap name new_signal cur_signal filter on_off_switch
        thp_disable :
      Member
  is_subreaper attr pid bits misfeature setting config slack access mask aux_vector buffer_size
        filled_size unknown_par :
      Member
  domain type prot pair sockfd backlog how addrlen buffer count num_msgs msgvec msg level optval
        optlen :
      Member
  on_off set_addr get_addr on_off_ret unused : Member

abbrev pub index : Member → ℕ
index Member.fd = 0
index Member.operation = 1
index Member.dup_lowest = 2
index Member.fd_flags_arg = 3
index Member.status_flags_arg = 4
index Member.flock_arg = 5
index Member.owner_arg = 6
index Member.ext_owner_arg = 7
index Member.io_signal_arg = 8
index Member.lease_arg = 9
index Member.dnotify_arg = 10
index Member.pipe_size_arg = 11
index Member.file_seals_arg = 12
index Member.rw_hint_arg = 13
index Member.ret_dupfd = 14
index Member.ret_fd_flags = 15
index Member.ret_status_flags = 16
index Member.ret_owner = 17
index Member.ret_io_signal = 18
index Member.ret_lease = 19
index Member.ret_pipe_size = 20
index Member.ret_seals = 21
index Member.result = 22
index Member.filename = 23
index Member.flags = 24
index Member.mode = 25
index Member.new_fd = 26
index Member.path = 27
index Member.buf = 28
index Member.size = 29
index Member.futex_addr = 30
index Member.value = 31
index Member.wake_count = 32
index Member.fd_sig = 33
index Member.timeout = 34
index Member.futex2_addr = 35
index Member.requeue_value = 36
index Member.requeue_limit = 37
index Member.wake_count2 = 38
index Member.wake_op = 39
index Member.bitset = 40
index Member.num_woken_up = 41
index Member.stack = 42
index Member.parent_tid = 43
index Member.pidfd = 44
index Member.child_tid = 45
index Member.tls = 46
index Member.new_pid = 47
index Member.idtype = 48
index Member.id_pid = 49
index Member.id_pgid = 50
index Member.id_pidfd = 51
index Member.siginfo = 52
index Member.options = 53
index Member.rusage = 54
index Member.nfds = 55
index Member.readfds = 56
index Member.writefds = 57
index Member.exceptfds = 58
index Member.old_args = 59
index Member.nready = 60
index Member.hint = 61
index Member.length = 62
index Member.protection = 63
index Member.offset = 64
index Member.addr = 65
index Member.advice = 66
index Member.offset64 = 67
index Member.offset64_lower = 68
index Member.size64 = 69
index Member.size64_lower = 70
index Member.op = 71
index Member.bool_setting = 72
index Member.res = 73
index Member.bool_res = 74
index Member.int_res = 75
index Member.mm_op = 76
index Member.reported_size = 77
index Member.exe_fd = 78
index Member.mm_struct = 79
index Member.mm_struct_size = 80
index Member.mce_kill_op = 81
index Member.policy = 82
index Member.policy_res = 83
index Member.ambient_op = 84
index Member.cap = 85
index Member.name = 86
index Member.new_signal = 87
index Member.cur_signal = 88
index Member.filter = 89
index Member.on_off_switch = 90
index Member.thp_disable = 91
index Member.is_subreaper = 92
index Member.attr = 93
index Member.pid = 94
index Member.bits = 95
index Member.misfeature = 96
index Member.setting = 97
index Member.config = 98
index Member.slack = 99
index Member.access = 100
index Member.mask = 101
index Member.aux_vector = 102
index Member.buffer_size = 103
index Member.filled_size = 104
index Member.unknown_par = 105
index Member.domain = 106
index Member.type = 107
index Member.prot = 108
index Member.pair = 109
index Member.sockfd = 110
index Member.backlog = 111
index Member.how = 112
index Member.addrlen = 113
index Member.buffer = 114
index Member.count = 115
index Member.num_msgs = 116
index Member.msgvec = 117
index Member.msg = 118
index Member.level = 119
index Member.optval = 120
index Member.optlen = 121
index Member.on_off = 122
index Member.set_addr = 123
index Member.get_addr = 124
index Member.on_off_ret = 125
index Member.unused = 126
