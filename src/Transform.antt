-- ===== src/Transform.antt =====
-- crates/parqonaut-transform: the rewriting of Parquet files.
pub mod Arrays
pub mod Filter
pub mod Partition
mod Checks
