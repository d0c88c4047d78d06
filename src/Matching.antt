-- ===== src/Matching.antt =====
-- The matching engine: packages/matching/src/catalog_matching.
pub mod Library
pub mod Models
pub mod Normalization
pub mod Matchers
pub mod Keyword
pub mod Config
pub mod Interpolation
pub mod Resolver
pub mod Engine
pub mod References
pub mod Validation
pub mod Ed2kLink
pub mod Sample
mod Tests
