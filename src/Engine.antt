-- ===== src/Engine.antt =====
-- The engine: include/Engine.hxx and src/Engine.cxx, with the parts of src/Tracee.cxx that go through
-- the engine, and the tracee classes of src/ForeignTracee.cxx, src/AutoAttachedTracee.cxx and
-- src/ChildTracee.cxx.
pub mod World
pub mod Registry
pub mod Process
pub mod Reachable
pub mod Restarts
pub mod Loop
pub mod Inbox
pub mod Stored
pub mod Nesting
pub mod Deciding
pub mod Backlog
pub mod Lookup
pub mod Storage
pub mod Cleanup
unfoldable pub use World.*
