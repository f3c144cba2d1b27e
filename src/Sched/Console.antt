-- ===== src/Sched/Console.antt =====
-- The console of sched/kern/console.c: keyboard, display and input buffer. What a port returns is an
-- argument, and what goes out to the serial and the parallel port is left out.
pub mod Tables
pub mod Keyboard
pub mod Display
pub mod Buffer
pub mod Fifo
mod Examples
