-- ===== src/Columnar.antt =====
-- crates/parqonaut-columnar/src: errors and the schema modules.
pub mod Arrow
pub mod Errors
pub mod Kind
pub mod Unify
pub mod Physical
pub mod Conversion
pub mod Unified
mod Checks
