-- ===== src/Install.antt =====
-- crates/kiry-core/src/install.rs: what is checked before a batch is applied, what an update keeps
-- back, and what a removal deletes.
pub mod Check
pub mod Os
pub mod Remove
pub mod Apply
