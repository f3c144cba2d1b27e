-- ===== src/Sched/Memory.antt =====
-- Physical memory of sched/kern/pmap.c: the page allocator, page tables, the check of user ranges.
pub mod Defs
pub mod Tables
pub mod Init
pub mod Layout
pub mod Startup
pub mod FreeList
pub mod Boot
mod Ownership
mod Reachable
mod Walks
pub mod Mapping
pub mod Access
pub mod Examples
