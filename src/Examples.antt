-- ===== src/Examples.antt =====
-- Concrete runs of the task runtime: a clock, a store, and the theorems at them.
mod Data
mod Rates
mod Outcomes
mod Turns
mod Operations
mod Runs
mod Claims
mod Locks
pub mod Caches
mod Streams
