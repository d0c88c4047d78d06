-- ===== src/Settings.antt =====
-- The configuration of the crawler: adapters/config.
pub mod Interpolation
pub mod Templates
pub mod Values
pub mod Model
pub mod Sections
pub mod Crawler
pub mod Readers
pub mod Pool
pub mod Valid
pub mod Observed
pub mod Searched
pub mod Accepted
pub mod Running
mod Tests
