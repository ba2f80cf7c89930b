-- ===== src/Elf.antt =====
-- crates/kiry-core/src/elf.rs: what a shared library offers and asks for, and what changed between two
-- builds of one.
pub mod Words
pub mod Tables
pub mod Parse
pub mod Compare
