-- ===== src/Sched/Debug.antt =====
-- sched/kern/kdebug.c: the search for the debugging entry of an instruction's address.
pub mod Search
pub mod Scan
pub mod Step
pub mod Bracket
pub mod Info
mod Examples
