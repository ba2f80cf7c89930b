-- ===== src/Archive.antt =====
-- crates/kiry-core/src/archive.rs: what of an archive may be unpacked, and where it lands.
pub mod Resolve
pub mod Ends
pub mod Walk
