-- ===== src/Audit.antt =====
-- audit.go and the chain functions of memory/store.go: the canonical encoding of an audit event and
-- the hash that chains it.
pub mod Encoding
pub mod Frames
pub mod Hash
pub mod Canonical
pub mod Verify
pub mod Chain
pub mod Tamper
