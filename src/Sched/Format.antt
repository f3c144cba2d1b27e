-- ===== src/Sched/Format.antt =====
-- sched/lib/printfmt.c, which the kernel and the user programs share: `vprintfmt` over any `putch`, and
-- `vsnprintf`. A format is the list of its bytes, without the NUL.
pub mod Number
pub mod Directive
pub mod Errors
pub mod Print
pub mod Fold
pub mod Buffer
pub mod Ends
pub mod Digits
mod Examples
