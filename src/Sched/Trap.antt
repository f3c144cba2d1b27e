-- ===== src/Sched/Trap.antt =====
-- `trap`, `trap_dispatch` and `page_fault_handler` of sched/kern/trap.c.
pub mod Dispatch
pub mod Faults
pub mod Timer
mod Examples
