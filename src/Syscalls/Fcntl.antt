-- ===== src/Syscalls/Fcntl.antt =====
-- FcntlSystemCall of src/syscalls/fs.cxx and include/syscalls/fs.hxx: its parameters and its return
-- item, by the operation.
use clues.Common.{refl, Bool, Option, List, [], ◌∷◌, ◌++◌}
use clues.Syscalls.{
  FcntlOper, dupfd, dupfd_cloexec, getfd, setfd, getfl, setfl, getlk, setlk, setlkw, getlk64,
  setlk64, setlkw64, ofd_setlk, ofd_setlkw, ofd_getlk, getown, setown, getown_ex, setown_ex, getsig,
  setsig, setlease, getlease, notify, setpipe_sz, getpipe_sz, add_seals, get_seals, get_rw_hint,
  set_rw_hint, get_file_rw_hint, set_file_rw_hint, invalid,
}
use clues.Syscalls.Members.{Member}
use clues.Syscalls.Layout.{
  Layout, reset, reset_all, emplace, drop_parameters, with_parameter, with_return, set_return_item,
  Checked, second_pass, Kept, StartsWith, after,
}

abbrev pub fcntl_args : List Member
fcntl_args =
    Member.dup_lowest ∷ Member.fd_flags_arg ∷ Member.status_flags_arg ∷ Member.flock_arg
    ∷ Member.owner_arg ∷ Member.ext_owner_arg ∷ Member.io_signal_arg ∷ Member.lease_arg
    ∷ Member.dnotify_arg ∷ Member.pipe_size_arg ∷ Member.file_seals_arg ∷ Member.rw_hint_arg ∷ []

abbrev pub fcntl_rets : List Member
fcntl_rets =
    Member.ret_dupfd ∷ Member.ret_fd_flags ∷ Member.ret_status_flags ∷ Member.ret_owner
    ∷ Member.ret_io_signal ∷ Member.ret_lease ∷ Member.ret_pipe_size ∷ Member.ret_seals ∷ []

abbrev pub fcntl_optional : List Member
fcntl_optional = Member.result ∷ fcntl_args ++ fcntl_rets

-- FcntlSystemCall::prepareNewSystemCall.
unfoldable pub fcntl_prepare : Layout → Layout
fcntl_prepare l =
    reset_all fcntl_rets (reset_all fcntl_args (with_return Member.result (drop_parameters 2 l)))

abbrev set_new_return_item : Member → Layout → Layout
set_new_return_item m l = set_return_item m (reset Member.result (emplace m l))

-- FcntlSystemCall::check2ndPass, by the operation; it always asks for a second pass.
unfoldable pub fcntl_layout : FcntlOper → Layout → Layout
fcntl_layout dupfd l = with_parameter Member.dup_lowest (set_new_return_item Member.ret_dupfd l)
fcntl_layout dupfd_cloexec l =
    with_parameter Member.dup_lowest (set_new_return_item Member.ret_dupfd l)
fcntl_layout getfd l = set_new_return_item Member.ret_fd_flags l
fcntl_layout setfd l = with_parameter Member.fd_flags_arg l
fcntl_layout getfl l = set_new_return_item Member.ret_status_flags l
fcntl_layout setfl l = with_parameter Member.status_flags_arg l
fcntl_layout setlk l = with_parameter Member.flock_arg l
fcntl_layout setlkw l = with_parameter Member.flock_arg l
fcntl_layout getlk l = with_parameter Member.flock_arg l
fcntl_layout setlk64 l = with_parameter Member.flock_arg l
fcntl_layout setlkw64 l = with_parameter Member.flock_arg l
fcntl_layout getlk64 l = with_parameter Member.flock_arg l
fcntl_layout ofd_setlk l = with_parameter Member.flock_arg l
fcntl_layout ofd_setlkw l = with_parameter Member.flock_arg l
fcntl_layout ofd_getlk l = with_parameter Member.flock_arg l
fcntl_layout getown l = set_new_return_item Member.ret_owner l
fcntl_layout setown l = with_parameter Member.owner_arg l
fcntl_layout getown_ex l = with_parameter Member.ext_owner_arg l
fcntl_layout setown_ex l = with_parameter Member.ext_owner_arg l
fcntl_layout getsig l = set_new_return_item Member.ret_io_signal l
fcntl_layout setsig l = with_parameter Member.io_signal_arg l
fcntl_layout getlease l = set_new_return_item Member.ret_lease l
fcntl_layout setlease l = with_parameter Member.lease_arg l
fcntl_layout notify l = with_parameter Member.dnotify_arg l
fcntl_layout setpipe_sz l =
    set_new_return_item Member.ret_pipe_size (with_parameter Member.pipe_size_arg l)
fcntl_layout getpipe_sz l = set_new_return_item Member.ret_pipe_size l
fcntl_layout add_seals l = with_parameter Member.file_seals_arg l
fcntl_layout get_seals l = set_new_return_item Member.ret_seals l
fcntl_layout get_rw_hint l = with_parameter Member.rw_hint_arg l
fcntl_layout get_file_rw_hint l = with_parameter Member.rw_hint_arg l
fcntl_layout set_rw_hint l = with_parameter Member.rw_hint_arg l
fcntl_layout set_file_rw_hint l = with_parameter Member.rw_hint_arg l
fcntl_layout invalid l = l

unfoldable pub fcntl_check : FcntlOper → Layout → Checked
unfolding fcntl_layout
fcntl_check op l = second_pass (fcntl_layout op l)

abbrev pub fcntl_fixed : List Member
fcntl_fixed = Member.fd ∷ Member.operation ∷ []

abbrev pub fcntl_entry : FcntlOper → Layout → Checked
fcntl_entry op l = fcntl_check op (fcntl_prepare l)

sound_from :
    (op : FcntlOper) (rest : List Member) (r : Option Member) (live : Member → Bool)
    → Kept fcntl_optional fcntl_fixed (fcntl_entry op (after fcntl_fixed rest r live))
unfolding fcntl_check fcntl_prepare
sound_from dupfd rest r live = (refl, (Member.dup_lowest ∷ [], refl))
sound_from _ rest r live = (refl, (_, refl))

-- Whatever calls of fcntl the object has been through, after the next entry every pointer to a
-- parameter or to the return item can be followed, an optional member holds an item just if it is the
-- extra parameter or the return item of this operation, and the two fixed parameters come first again.
pub fcntl_entry-Kept :
    (op : FcntlOper) (l : Layout)
    → StartsWith fcntl_fixed l
    → Kept fcntl_optional fcntl_fixed (fcntl_entry op l)
fcntl_entry-Kept op l (rest, p) = rw p (sound_from op rest l.ret l.live)
