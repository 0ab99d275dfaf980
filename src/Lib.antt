-- ===== src/Lib.antt =====
-- clues: models and theorems for the library that traces system calls by ptrace.
--
-- The program. An Engine (src/Engine.cxx) waits for events of traced processes and hands each to the
-- Tracee (src/Tracee.cxx) of that process. A tracee runs through the states of its stops, keeps the
-- system call that it is in (src/SystemCall.cxx, with items for its parameters), reads the memory of
-- its process, tracks the file descriptors of its thread group, tells an EventConsumer what it has
-- seen, and is restarted. New children, threads and the exchange of process ids at an execve go back
-- through the engine, which owns the table of tracees.
--
-- The files. Common has the shared notation, tests on numbers, lists, and `std::map` as an ordered
-- association list (Common/Maps). Outcome has stateful code that may throw: a state goes in, and a
-- value or an exception comes out together with the state at that point.
--   Errno    src/ErrnoResult.cxx, include/ErrnoResult.hxx and the errno labels of src/utils.cxx.
--   Abi      the ABI helpers of include/utils.hxx and src/utils.cxx, src/SystemCallInfo.cxx, and
--            Tracee::verifyArch.
--   Fd       FDInfo and FDInfoMap of include/types.hxx with trackFD, updateFD and dropFD of
--            src/Tracee.cxx; Fd/Exec is syncFDsAfterExec.
--   Memory   fillData, readVector, readString, readBlob of src/Tracee.cxx, and readStruct and
--            readStructIntoOptional of include/Tracee.hxx.
--   Calls    src/SystemCall.cxx and SystemCallItem::fill: the passes over the parameters at an entry
--            and at an exit.
--   Syscalls the classes of single system calls (src/syscalls, include/syscalls). Files, Sockets and
--            Processes: updateFDTracking of each class; Dispatch: the choice between them, and the
--            kernel's table of open descriptors that they are compared with. Layout: the parameters of
--            an object as pointers to its members (in Members); Fcntl, Futex, Clone, Variants, FAdvise,
--            Extras and Prctl with PrctlObjects: prepareNewSystemCall and check2ndPass of the classes
--            that have them. Socketcall: the arguments of socketcall.
--   Items    Items/Dirents: DirEntries of src/items/fs.cxx, which decodes the records of getdents().
--   Proc     the listing of /proc/<pid>/fd in src/utils.cxx.
--   Format   signals, signal sets, flags of signal actions, limits and poll events of src/format.cxx.
--   Termtracer src/termtracer/TermTracer.cxx: its bookkeeping of system calls and lines, and the
--            parameters that are printed (Termtracer/Pars).
--   Tracee   Tracee/State: the records of a tracee, its environment (both in Tracee/State/Data), and
--            changeState. Tracee/Detach:
--            attach, detach, doDetach, handleError. Tracee/SystemCalls: handleSystemCall with its
--            entries and exits, and SystemCallDB::get. Tracee/Events: the other stops.
--   Engine   Engine/World: the table of tracees and all objects. Engine/Registry: addTracee,
--            checkCleanupTracee, tryUpdateTraceePID, stop, handleAutoAttach and handleSubstitution of
--            src/Engine.cxx, with the constructors and destructors of the three tracee classes.
--            Engine/Process: processEvent and what it calls; Engine/Reachable has the stops of one
--            tracee, in any order, as a step relation. Engine/Loop: handleEvent, trace and
--            handleNoChildren of src/Engine.cxx.
-- The other files under these hold theorems. Examples applies each of them to concrete inputs.
--
-- How state and operations correspond. A function of the source is a function of the model of the
-- same name in small letters with underscores, and a helper that stands in front of it is a part of
-- its body. Functions of one tracee work on `Local`: the tracee, the process data that it shares, the
-- heap of system call objects, and the log of what the consumer and the kernel have been sent.
-- Functions of the engine work on `World`, and `on` lets one tracee work in it. Pointers are numbers,
-- so sharing of system calls and of process data is kept. Undefined behaviour that the source can
-- reach is written out: a null pointer or an empty optional that is read throws `null_dereference`,
-- and an erased iterator that is moved on throws `invalid_iterator`.
--
-- What stands outside. `Env` holds the answers of the kernel to ptrace requests, by the number of the
-- requests made before and the process id, and what the proc file system shows. The generated tables
-- of system call numbers and of errno names, the virtual functions of the items and of the classes of
-- system calls, and cosmos are parameters too.
--
-- Bounds and fuel. A word has 64 bits, size_t and the number of system calls wrap around at 2 ^ 64,
-- and addresses do so too. Reading memory has fuel
-- for each word that is read, and the parsing of directory entries for each record: a record takes up
-- at least its fixed part, so fuel for each byte is enough. The inner loop of Engine::trace has fuel for one retry: an exec moves
-- the entry of the old process id to the new one, where the retry finds it. handleEvent calls itself
-- for the stored event of a process that it has just attached, and `trace` gives it fuel for one event
-- within an event: only stops are stored, and a stop attaches no new child.
--
-- What is not modelled. Of the classes of single system calls, the constructors of those with fixed
-- parameters only, the choice of a class for a socket option, and the filling from the old argument
-- structs of select and mmap. Of the decoding of parameters (src/items) only directory entries are
-- covered: what another item has decoded comes in as an argument. Of src/format.cxx buffers, escapes,
-- signal infos and descriptor infos are left out. The contents of /proc are arguments. The numbers under include/sysnrs are
-- generated. The layouts of machine registers under include/regs are kept only as the system call
-- number and the parameters. Of the front end (src/termtracer) the
-- options and the texts are left out. Of
-- Tracee, labels, isThreadGroupLeader, the pidfd and snatchFD are left out. The destructors that run
-- when the engine itself ends are not run.
pub mod Common
pub mod Fd
pub mod Memory
pub mod Outcome
pub mod Errno
pub mod Abi
pub mod Calls
pub mod Proc
pub mod Items
pub mod Format
pub mod Termtracer
pub mod Syscalls
pub mod Tracee
pub mod Engine
pub mod Examples
