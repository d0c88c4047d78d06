-- ===== src/Verify.antt =====
-- The verification of downloaded files: the queue of tasks and the loop that serves it.
pub mod Queue
pub mod Cycle
