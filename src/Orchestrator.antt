-- ===== src/Orchestrator.antt =====
-- crates/parqonaut-orchestrator/src: batch runs over many datasets.
pub mod State
pub mod Journal
pub mod Executor
pub mod Scheduler
pub mod Overlap
mod Checks
