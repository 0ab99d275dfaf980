-- ===== src/Calls.antt =====
-- System calls and their parameters: src/SystemCall.cxx, src/SystemCallItem.cxx and their headers.
-- What the items and the classes of single system calls do in their virtual functions enters as
-- `Hooks`; the calls of these functions are logged in their order.
pub mod Order
pub mod Results
pub mod Entries
use clues.Common.{
  ℕ, zero, suc, ◌+◌, ◌%◌, ◌^◌, Bool, true, false, not, Option, none, some, List, [], ◌∷◌, ◌++◌,
  arith, ◌==◌, if◌then◌else◌, is_some, take, length,
}
use clues.Outcome.{Exception, errno_no_data}
use clues.Errno.{ErrnoResult, errno_result}
use clues.Abi.{Abi, SystemCallInfo, Op, entry, exit_value, exit_error, no_op}
use clues.Fd.{FdInfoMap}

pub data ItemType : Type 0 where
  param_in param_out param_in_out retval : ItemType

-- SystemCallItem: its type, its two flags and the raw register value.
pub record Item : Type 0 where
  pub type : ItemType
  pub defer_fill : Bool
  pub unused : Bool
  pub value : ℕ

-- `needsUpdate()`.
abbrev type_needs_update : ItemType → Bool
type_needs_update param_in = false
type_needs_update _ = true

unfoldable pub needs_update : Item → Bool
needs_update i = type_needs_update i.type

-- A call of a virtual function: `processData` and `updateData` of the parameter at a position,
-- `processData` of the return item, and `postSystemCall`.
pub data ItemCall : Type 0 where
  process_data update_data : ℕ → ItemCall
  process_return post_system_call : ItemCall

-- SystemCall; `busy` says that `m_info` is set.
pub record SystemCall : Type 0 where
  pub nr : ℕ
  pub busy : Bool
  pub return_item : Item
  pub error : Option ErrnoResult
  pub pars : List Item
  pub abi : Abi
  pub calls : List ItemCall

-- The virtual functions: `prepareNewSystemCall`, `check2ndPass`, the exception that an item's call
-- ends in, if any, and `updateFDTracking`, with its exception.
pub record Hooks : Type 0 where
  pub prepare_new_system_call : SystemCall → SystemCall
  pub check_2nd_pass : SystemCall → SystemCall × Bool
  pub throws_at : ItemCall → Option Exception
  pub update_fd_tracking : SystemCall → FdInfoMap → FdInfoMap × Option Exception

abbrev pub word_bits : ℕ
word_bits = 64

-- `static_cast<Word>`.
abbrev pub to_word : ℕ → ℕ
to_word n = n % 2 ^ word_bits

-- A system call, and the exception that has ended the run, if any.
abbrev pub Run : Type 0
Run = SystemCall × Option Exception

infixl 5 ◌then_do◌
abbrev pub ◌then_do◌ : Run → (SystemCall → Run) → Run
r then_do f = elim r.1 [ none ↦ f r.0 | some e ↦ r ]

abbrev pub call_item : Hooks → ItemCall → SystemCall → Run
call_item h c s = (record s { calls = s.calls ++ c ∷ [] }, h.throws_at c)

-- `pars[i]->m_val = word`.
unfoldable pub set_value : ℕ → ℕ → List Item → List Item
set_value i word [] = []
set_value zero word (p ∷ ps) = record p { value = word } ∷ ps
set_value (suc i) word (p ∷ ps) = p ∷ set_value i word ps

-- SystemCallItem::fill of the parameter at position `i`.
unfoldable pub fill : Hooks → ℕ → Bool → ℕ → SystemCall → Run
fill h i unused word s =
    let t = record s { pars = set_value i word s.pars } in
    if unused then (t, none) else call_item h (process_data i) t

-- The arguments of an entry info, by position; a missing one does not occur below MAX_ARGS.
abbrev pub arg_at : ℕ → List ℕ → ℕ
arg_at i [] = 0
arg_at zero (a ∷ rest) = a
arg_at (suc i) (a ∷ rest) = arg_at i rest

-- The second loop of `fillParameters`, over the deferred parameters.
unfoldable pub fill_deferred : Hooks → List (ℕ × Bool × ℕ) → SystemCall → Run
unfolding fill
fill_deferred h [] s = (s, none)
fill_deferred h ((i, u, w) ∷ ds) s = fill h i u w s then_do λ t. fill_deferred h ds t

-- The first loop, over the parameters from position `i` on. `deferred` is what it has put aside.
unfoldable pub fill_from : Hooks → List ℕ → ℕ → List Item → List (ℕ × Bool × ℕ) → SystemCall → Run
unfolding fill fill_deferred
fill_from h args i [] deferred s = fill_deferred h deferred s
fill_from h args i (p ∷ ps) deferred s =
    let word = to_word (arg_at i args) in
    let later = fill_from h args (suc i) ps (deferred ++ (i, p.unused, word) ∷ []) s in
    let now = fill h i p.unused word s then_do (λ t. fill_from h args (suc i) ps deferred t) in
    if p.defer_fill then later else now

-- `fillParameters`. The loops read the flags of the parameters, which no call changes.
unfoldable pub fill_parameters : Hooks → List ℕ → SystemCall → Run
unfolding fill_from
fill_parameters h args s = fill_from h args 0 s.pars [] s

-- `dropParameters`.
unfoldable pub drop_parameters : ℕ → SystemCall → SystemCall
drop_parameters start_index s = record s { pars = take start_index s.pars }

-- The arguments of `entryInfo()`.
abbrev pub entry_args : Op → List ℕ
entry_args (entry native args) = args
entry_args _ = []

-- `setEntryInfo`.
unfoldable pub set_entry_info : Hooks → SystemCallInfo → SystemCall → Run
set_entry_info h info s =
    let args = entry_args info.op in
    let start = record s {
      abi = info.abi;
      error = some (errno_result errno_no_data);
      busy = true;
    } in
    (fill_parameters h args (h.prepare_new_system_call start) then_do λ t.
    let (u, again) = h.check_2nd_pass t in if again then fill_parameters h args u else (u, none))
    then_do λ t. (record t { busy = false }, none)

-- `hasResultValue()` and `hasOutParameter()`.
unfoldable pub has_result_value : SystemCall → Bool
has_result_value s = not (is_some s.error)

unfoldable pub has_out_parameter : List Item → Bool
unfolding needs_update
has_out_parameter [] = false
has_out_parameter (p ∷ ps) = if needs_update p then true else has_out_parameter ps

-- The loop of `setExitInfo` over the deferred parameters.
unfoldable pub update_deferred : Hooks → List ℕ → SystemCall → Run
update_deferred h [] s = (s, none)
update_deferred h (i ∷ is) s = call_item h (update_data i) s then_do λ t. update_deferred h is t

-- The loop of `setExitInfo` over the parameters.
unfoldable pub update_from : Hooks → ℕ → List Item → List ℕ → SystemCall → Run
unfolding update_deferred needs_update
update_from h i [] deferred s = update_deferred h deferred s
update_from h i (p ∷ ps) deferred s =
    let skipped = update_from h (suc i) ps deferred s in
    let later = update_from h (suc i) ps (deferred ++ i ∷ []) s in
    let now = call_item h (update_data i) s then_do (λ t. update_from h (suc i) ps deferred t) in
    if not (needs_update p) then skipped else if not p.defer_fill then now else later

-- The result of the call: the value goes to the return item, an error resets it.
unfoldable pub set_result : Hooks → Op → SystemCall → Run
set_result h (exit_value v) s =
    let t = record s { error = none; return_item = record (s.return_item) { value = to_word v } } in
    if s.return_item.unused then (t, none) else call_item h process_return t
set_result h (exit_error e) s = (
  record s { error = some (errno_result e); return_item = record (s.return_item) { value = 0 } },
  none,
)
set_result h _ s = (s, none)

abbrev pub is_value : Op → Bool
is_value (exit_value v) = true
is_value _ = false

-- `setExitInfo` up to the tracking of file descriptors.
unfoldable pub run_exit : Hooks → Op → SystemCall → Run
run_exit h op s =
    set_result h op (record s { busy = true })
    then_do (λ t. update_from h 0 t.pars [] t)
    then_do (λ t. call_item h post_system_call t)

-- The end of `setExitInfo`: descriptors are tracked only where the call has a value, and an exception
-- of the tracking leaves `m_info` set.
abbrev pub tracked :
    SystemCall → FdInfoMap × Option Exception → SystemCall × FdInfoMap × Option Exception
tracked s (fds, some e) = (s, fds, some e)
tracked s (fds, none) = (record s { busy = false }, fds, none)

unfoldable pub finish_exit :
    Hooks → Op → FdInfoMap → Run → SystemCall × FdInfoMap × Option Exception
finish_exit h op fds (s, some e) = (s, fds, some e)
finish_exit h op fds (s, none) =
    tracked s (if is_value op then h.update_fd_tracking s fds else (fds, none))

-- `setExitInfo`: the call, the map of file descriptors, and the exception, if any.
unfoldable pub set_exit_info :
    Hooks → Op → SystemCall → FdInfoMap → SystemCall × FdInfoMap × Option Exception
unfolding finish_exit
set_exit_info h op s fds = finish_exit h op fds (run_exit h op s)
