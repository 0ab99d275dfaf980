-- ===== src/Examples.antt =====
-- Runs of the models at concrete inputs.
pub mod Values
pub mod Fixtures
pub mod Stops
pub mod Table
pub mod Syscalls
pub mod Texts
pub mod Terminal
