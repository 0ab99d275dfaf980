-- ===== src/Tracee.antt =====
-- The state of one tracee and of what it shares: include/Tracee.hxx, include/ProcessData.hxx and the
-- callbacks of include/EventConsumer.hxx. The parts of src/Tracee.cxx are the children.
pub mod State
pub mod Detach
pub mod SystemCalls
pub mod Events
pub mod Alternation
pub mod Safety
pub mod Stops
pub mod Entries
pub mod Resumption
pub mod Release
unfoldable pub use State.*
