-- ===== src/Repair.antt =====
-- crates/parqonaut-repair: plans of repairs.
pub mod Dependencies
pub mod Execution
pub mod Schema
mod Checks
