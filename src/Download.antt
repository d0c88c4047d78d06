-- ===== src/Download.antt =====
-- The downloads: packages/crawler/src/emule_indexer/domain/download and
-- packages/crawler/src/emule_indexer/application/run_download_cycle.py.
pub mod Rules
pub mod Staging
pub mod World
pub mod Table
pub mod Cycle
pub mod Moves
pub mod Runs
pub mod Agreement
pub mod Completion
pub mod Committed
pub mod Candidates
pub mod Links
pub mod Iteration
pub mod Safety
mod Tests
