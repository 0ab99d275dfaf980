-- ===== src/Syscalls.antt =====
-- The classes of single system calls: src/syscalls and include/syscalls.
pub mod Files
pub mod Sockets
pub mod Processes
pub mod Dispatch
pub mod Keyed
pub mod Opened
pub mod Steps
pub mod Refinement
pub mod Duplicates
pub mod Members
pub mod Layout
pub mod Fcntl
pub mod Futex
pub mod Clone
pub mod Variants
pub mod FAdvise
pub mod Extras
pub mod Prctl
pub mod PrctlObjects
pub mod Socketcall
pub mod Transfers

-- item::FcntlOperation::Oper of include/items/fcntl.hxx; `invalid` stands for any other number.
pub data FcntlOper : Type 0 where
  dupfd dupfd_cloexec getfd setfd getfl setfl : FcntlOper
  getlk setlk setlkw getlk64 setlk64 setlkw64 ofd_setlk ofd_setlkw ofd_getlk : FcntlOper
  getown setown getown_ex setown_ex getsig setsig setlease getlease notify : FcntlOper
  setpipe_sz getpipe_sz add_seals get_seals : FcntlOper
  get_rw_hint set_rw_hint get_file_rw_hint set_file_rw_hint invalid : FcntlOper
