-- ===== src/Storage.antt =====
-- crates/parqonaut-storage/src: backends, writer locks and the publication protocol.
pub mod Errors
pub mod Location
pub mod Backend
pub mod Memory
pub mod Keys
pub mod Contents
pub mod Records
pub mod Locking
pub mod Effects
pub mod Exclusion
pub mod Ownership
pub mod Freeing
pub mod Publication
pub mod Footer
mod Checks
