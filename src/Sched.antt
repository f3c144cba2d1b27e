-- ===== src/Sched.antt =====
-- The kernel of sched/: random numbers, physical memory, environments, scheduling, system calls.
pub mod Random
pub mod Console
pub mod Strings
pub mod Format
pub mod Debug
pub mod Lock
pub mod Processors
pub mod Memory
pub mod Kernel
pub mod Env
pub mod Yield
pub mod Syscall
pub mod Trap
pub mod User
pub mod Examples
