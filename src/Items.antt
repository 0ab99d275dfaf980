-- ===== src/Items.antt =====
-- The items that decode what a tracee's memory holds: the directory entries of src/items/fs.cxx.
pub mod Dirents
