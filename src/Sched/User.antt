-- ===== src/Sched/User.antt =====
-- sched/lib: what user programs link.
pub mod Calls
pub mod Fork
pub mod Ipc
mod Entries
mod Send
mod Share
mod Cow
mod Examples
