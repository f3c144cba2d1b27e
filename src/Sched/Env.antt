-- ===== src/Sched/Env.antt =====
-- The environments of sched/kern/env.c.
pub mod Table
pub mod Run
pub mod Lookup
pub mod Alloc
pub mod Free
pub mod Load
pub mod Create
