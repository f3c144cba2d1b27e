-- ===== src/Fisopfs.antt =====
-- The file system of fisopfs/: a grid of cells behind the operations of FUSE.
pub mod Structs
pub mod Query
pub mod Update
pub mod Backup
pub mod Arguments
mod Lookup
mod Slots
mod Create
mod Room
mod Contents
mod Remove
mod Record
mod Reload
mod Examples
