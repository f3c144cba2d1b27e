-- ===== src/Exercises.antt =====
-- The exercises on processes and pipes of fork/.
pub mod Primes
mod Sieve
pub mod Xargs
mod Batches
pub mod Find
mod Walk
mod Pipeline
mod Cost
mod Ends
mod Examples
