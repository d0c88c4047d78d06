-- ===== src/Observability.antt =====
-- domain/observability: what each event reports.
pub mod Policy
pub mod Audiences
pub mod Edge
mod Tests
