-- ===== src/Domain.antt =====
-- The pure rules of packages/crawler/src/emule_indexer/domain: the keywords of a search cycle and
-- the daily buckets of the observations.
pub mod Keywords
pub mod Sets
pub mod Buckets
pub mod Bounds
mod Tests
