-- ===== src/Engine/Registry.antt =====
-- The table of tracees: addTracee, checkCleanupTracee, tryUpdateTraceePID, stop, handleAutoAttach and
-- handleSubstitution of src/Engine.cxx, with the constructors and destructors that they run.
use clues.Common.{
  ℕ, Bool, true, false, ◌&&◌, not, Option, none, some, List, [], ◌∷◌, ◌++◌, ◌==◌, if◌then◌else◌,
  is_some,
}
use clues.Common.Maps
use clues.Outcome.{
  M, returns, throws, Exception, runtime_error, api_error, ◌>>=◌, ◌>>◌, pure, modify, skip, when,
  throw, catch, get, errno_search,
}
use clues.Tracee.State.{
  State, dead, detached, child, foreign, auto_attached, is_child, Tracee, Local, Env, ask, update,
  emit, Effect, PtraceEvent, vfork_done, new_child_process, vfork_complete, signal_sent, no_status,
  change_state, cleanup_child,
}
use clues.Tracee.Detach.{detach, do_detach, attach}
use clues.Tracee.Events.{has_cloned_thread, shares_file_descriptors_with_parent}
use clues.Engine.World.{World, null, on, change, create, unshare_process_data}

abbrev pub emit_world : Effect → M World (Unit {0})
emit_world e w = returns tt (record w { log = w.log ++ e ∷ [] })

abbrev pub or_null : Option ℕ → ℕ
or_null none = null
or_null (some i) = i

-- `m_tracees.find(sibling)`, where INVALID is no key.
abbrev pub sibling_of : Option ℕ → List (ℕ × ℕ) → ℕ
sibling_of none m = null
sibling_of (some pid) m = or_null (Maps.find pid m)

-- The destructor of a tracee that is not a child: it detaches, and no error comes out of it.
abbrev pub destroy : Env → ℕ → M World (Unit {0})
destroy env i = catch (on i (detach env) >>= λ _. skip) (λ e. skip)

-- `addTracee` of a process id.
unfoldable pub add_tracee : Env → ℕ → Bool → Bool → Option ℕ → M World ℕ
add_tracee env pid follow_children attach_threads sibling = do
  w ← get
  i ← create foreign (sibling_of sibling w.tracees)
  change i (λ t. record t { pid = some pid })
  catch (on i (attach env follow_children attach_threads)) (λ e. do destroy env i; throw e)
  modify (λ v. record v { tracees = Maps.assign pid i v.tracees })
  pure i

-- SIGKILL.
abbrev pub sig_kill : ℕ
sig_kill = 9

-- The destructor of ChildTracee: a child that runs is killed and waited for.
abbrev kill_child : Env → M Local (Unit {0})
kill_child env = do
  s ← get
  when s.tracee.child_running
      (catch (do ask env.send_signal; emit (signal_sent s.tracee.pid sig_kill)) (λ e. skip))
  catch (cleanup_child env) (λ e. skip)

-- `ChildTracee::create`.
unfoldable pub create_child : Env → List (List ℕ) → M Local (Unit {0})
create_child env args s =
    if not (env.which args)
    then (do change_state env dead; throw runtime_error) s
    else (do
      pid ← ask (env.spawn args)
      update (λ t. record t { child_running = true })
      ask env.wait_stopped
      update
          (λ t. record t { flags = record (t.flags) { injected_sigstop = true }; pid = some pid }))
        s

-- `addTracee` of a command line.
unfoldable pub add_child : Env → List (List ℕ) → Bool → M World ℕ
add_child env cmdline follow_children = do
  i ← create child null
  catch (on i (do create_child env cmdline; attach env follow_children false))
      (λ e. do on i (kill_child env); throw e)
  w ← get
  modify (λ v. record v {
    tracees = elim ((w.objects i).pid) [
      | none ↦ v.tracees
      | some pid ↦ Maps.assign pid i v.tracees
    ];
  })
  pure i

abbrev pub erase_tracee : ℕ → M World (Unit {0})
erase_tracee pid = modify (λ w. record w { tracees = Maps.erase pid w.tracees })

abbrev cleanup_in : Env → ℕ → ℕ → State → M World (Unit {0})
cleanup_in env pid i detached w =
    if is_child ((w.objects i).kind) then returns tt w else erase_tracee pid w
cleanup_in env pid i dead w = (do on i (do_detach env); erase_tracee pid) w
cleanup_in env pid i _ w = returns tt w

-- `checkCleanupTracee` of the entry (pid, i).
unfoldable pub check_cleanup_tracee : Env → ℕ → ℕ → M World (Unit {0})
check_cleanup_tracee env pid i w = cleanup_in env pid i ((w.objects i).state) w

-- `tryUpdateTraceePID`: the entry moves to the new key, unless that is taken.
abbrev move_entry : ℕ → ℕ → Option ℕ → M World Bool
move_entry old_pid new_pid none w = returns false w
move_entry old_pid new_pid (some i) w =
    returns true (record w { tracees = Maps.insert new_pid i (Maps.erase old_pid w.tracees) })

unfoldable pub try_update_tracee_pid : ℕ → ℕ → M World Bool
try_update_tracee_pid old_pid new_pid w = move_entry old_pid new_pid (Maps.find old_pid w.tracees) w

-- `m_tracees[parent.pid()]`, which makes a null entry for a key that is not there.
abbrev pub subscript : Option ℕ → M World ℕ
subscript none w = returns null w
subscript (some pid) w = elim (Maps.find pid w.tracees) [
  | some i ↦ returns i w
  | none ↦ returns null (record w { tracees = Maps.assign pid null w.tracees })
]

abbrev pub is_vfork_done : PtraceEvent → Bool
is_vfork_done vfork_done = true
is_vfork_done _ = false

-- The part of `handleAutoAttach` for a new child. `call` is the parent's system call.
unfoldable pub attach_child : Env → ℕ → ℕ → PtraceEvent → ℕ → M World (Unit {0})
attach_child env parent pid event call = do
  w ← get
  sibling ← subscript ((w.objects parent).pid)
  i ← create auto_attached sibling
  change i
      (λ t. record t { pid = some pid; flags = record (t.flags) { wait_for_attach_stop = true } })
  when (not (shares_file_descriptors_with_parent env (w.heap call))) (unshare_process_data i)
  modify (λ v. record v { tracees = Maps.insert pid i v.tracees })
  u ← get
  let entry = or_null (Maps.find pid u.tracees)
  thread ← on parent (has_cloned_thread env)
  emit_world (
      new_child_process ((w.objects parent).id) ((u.objects entry).id) event
        (record no_status { cloned_thread = thread }))
  check_cleanup_tracee env pid entry

-- `handleAutoAttach`.
unfoldable pub handle_auto_attach : Env → ℕ → ℕ → PtraceEvent → ℕ → M World (Unit {0})
handle_auto_attach env parent pid event call = do
  w ← get
  (if is_vfork_done event
      then emit_world (vfork_complete ((w.objects parent).id) (Maps.find pid w.tracees))
      else attach_child env parent pid event call)
  modify (λ v. record v { newly_attached = some pid })

abbrev ignore_search : Exception → M World Bool
ignore_search (api_error e) w = if e == errno_search then returns true w else throws (api_error e) w
ignore_search e w = throws e w

abbrev take_out : Env → ℕ → Option ℕ → M World (Option ℕ)
take_out env old_pid none w = returns none w
take_out env old_pid (some i) w =
    (do done ← catch (on i (detach env)) ignore_search; erase_tracee old_pid; pure (some i)) w

-- `handleSubstitution`: the tracee of the old process id is taken out of the table.
unfoldable pub handle_substitution : Env → ℕ → M World (Option ℕ)
handle_substitution env old_pid w = take_out env old_pid (Maps.find old_pid w.tracees) w

abbrev pub is_alive : Tracee → Bool
is_alive t = is_some t.pid

abbrev send_to : Env → Option ℕ → ℕ → M World (Unit {0})
send_to env none i = skip
send_to env (some signal) i = on i (do
  s ← get
  when (is_child s.tracee.kind && is_alive s.tracee)
      (do ask env.send_signal; emit (signal_sent s.tracee.pid signal)))

-- The loop of `stop` over the entries that are left.
unfoldable pub stop_all : Env → Option ℕ → List (ℕ × ℕ) → M World (Unit {0})
stop_all env signal [] = skip
stop_all env signal ((pid, i) ∷ rest) = do
  send_to env signal i
  done ← on i (detach env)
  w ← get
  when (not (is_alive (w.objects i))) (erase_tracee pid)
  stop_all env signal rest

-- `stop`.
unfoldable pub stop : Env → Option ℕ → M World (Unit {0})
stop env signal w = stop_all env signal w.tracees w
