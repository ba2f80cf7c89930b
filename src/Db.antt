-- ===== src/Db.antt =====
-- crates/kiry-core/src/db.rs: the database of installed packages, one module for each of its
-- files and one for the record that holds them together.
pub mod Manifest
pub mod Provides
pub mod Record
pub mod Queue
