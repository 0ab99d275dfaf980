-- ===== src/Tracee/Detach.antt =====
-- Attaching to and detaching from a tracee: attach, detach, doDetach, handleError, updateExecutable
-- and updateCmdLine of src/Tracee.cxx.
use clues.Common.{
  ℕ, Bool, true, false, ◌&&◌, not, Option, none, some, List, [], ◌∷◌, ◌++◌, ◌==◌, if◌then◌else◌,
  is_some, String,
}
use clues.Outcome.{
  M, returns, Exception, api_error, ◌>>=◌, ◌>>◌, pure, modify, when, throw, catch, get,
  errno_search,
}
use clues.Tracee.State.{
  dead, detached, is_running, is_unknown, is_gone, no_flags, is_child, Local, Env, ask, look,
  update, emit, signal_sent, detach_sent, change_state,
}

-- `catch (const cosmos::ApiError &)`: other exceptions pass.
abbrev pub on_api_error : {A : Type 0} → (ℕ → M Local A) → Exception → M Local A
on_api_error handler (api_error e) = handler e
on_api_error handler other = throw other

-- `handleError` of the ApiError with this errno.
unfoldable pub handle_error : Env → ℕ → M Local (Unit {0})
unfolding change_state
handle_error env e =
    if e == errno_search
    then change_state env dead
    else (do update (λ t. record t { pid = none }); throw (api_error e))

-- PTRACE_DETACH.
abbrev ask_detach : Env → M Local (Unit {0})
ask_detach env = do ask env.detach; s ← get; emit (detach_sent s.tracee.pid)

-- `doDetach`.
unfoldable pub do_detach : Env → M Local (Unit {0})
do_detach env = do
  catch (do ask_detach env; change_state env detached) (on_api_error (handle_error env))
  update (λ t. record t { pid = none; flags = no_flags; initial_attacher = none })

-- The part of `detach` for a tracee that runs: detach at its next stop.
abbrev pub detach_later : Env → M Local Bool
detach_later env = do
  update (λ t. record t { flags = record (t.flags) { detach_at_next_stop = true } })
  s ← get
  when (not s.tracee.flags.wait_for_attach_stop)
      (catch (ask env.interrupt) (on_api_error (handle_error env)))
  pure false

-- `detach`: whether the tracee is detached on return.
unfoldable pub detach : Env → M Local Bool
detach env s =
    if not (is_some s.tracee.pid)
    then returns true s
    else if is_gone s.tracee.state
    then returns true s
    else if not (is_running s.tracee.state) && not (is_unknown s.tracee.state)
    then (do_detach env >>= λ _. pure true) s
    else detach_later env s

-- The arguments in a cmdline file: what stands in front of each zero byte. A last piece without its
-- zero byte is dropped, as `getline` is not `good()` there.
unfoldable pub split_args : List ℕ → List ℕ → List (List ℕ)
split_args arg [] = []
split_args arg (b ∷ bs) = if b == 0 then arg ∷ split_args [] bs else split_args (arg ++ b ∷ []) bs

abbrev pub args_of : Option (List ℕ) → List (List ℕ)
args_of none = []
args_of (some file) = split_args [] file

abbrev pub link_or_empty : Option String → String
link_or_empty none = ""
link_or_empty (some path) = path

-- `updateExecutable` and `updateCmdLine`.
unfoldable pub update_executable : Env → M Local (Unit {0})
update_executable env = do
  path ← look env.exe_link
  modify (λ s. record s { process = record (s.process) { executable = link_or_empty path } })

unfoldable pub update_cmd_line : Env → M Local (Unit {0})
unfolding split_args
update_cmd_line env = do
  file ← look env.cmdline_file
  modify (λ s. record s { process = record (s.process) { cmdline = args_of file } })

-- SIGCONT.
abbrev pub sig_cont : ℕ
sig_cont = 18

-- The SIGCONT that undoes an injected SIGSTOP.
abbrev undo_sigstop : Env → M Local (Unit {0})
undo_sigstop env = do
  s ← get
  ask env.send_signal
  emit (signal_sent s.tracee.pid sig_cont)
  update (λ t. record t { flags = record (t.flags) { injected_sigcont = true } })

-- `attach`.
unfoldable pub attach : Env → Bool → Bool → M Local (Unit {0})
unfolding change_state update_executable update_cmd_line
attach env follow_children attach_threads = do
  update (λ t. record t { follow_children = follow_children })
  catch (ask env.seize)
      (λ e. do s ← get; when (not (is_child s.tracee.kind)) (change_state env dead); throw e)
  update_executable env
  update_cmd_line env
  ask env.interrupt
  update (λ t. record t { flags = record (t.flags) { wait_for_attach_stop = true } })
  s ← get
  when s.tracee.flags.injected_sigstop (undo_sigstop env)
  when attach_threads
      (update (λ t. record t { flags = record (t.flags) { attach_threads_pending = true } }))
