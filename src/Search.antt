-- ===== src/Search.antt =====
-- The search loop of application/: its tasks, its workers and its cycle.
pub mod Backoff
pub mod Tasks
pub mod World
pub mod Observing
pub mod Verdicts
pub mod Worker
pub mod Cycle
pub mod Pool
pub mod Counting
pub mod Joined
pub mod Refusals
pub mod Potential
pub mod Progress
pub mod Spinning
mod Tests
