-- ===== src/Storage/Checks.antt =====
-- The theorems on crates/parqonaut-storage/src at a concrete platform: the in-memory backend, whose
-- bytes are the documents themselves.
mod Platforms
mod Locks
mod Publications
mod Objects
mod Footers
