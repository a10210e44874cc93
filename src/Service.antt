-- ===== src/Service.antt =====
-- The scan service of crates/paraclete-service with its store, crates/paraclete-store.
pub mod Jobs
pub mod Worker
mod Checks
