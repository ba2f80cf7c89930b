-- ===== src/Cli.antt =====
-- crates/kiry/src/main.rs: what the command line decides, apart from what it prints and runs.
pub mod Levels
pub mod Version
pub mod Regex
pub mod Paths
pub mod Loader
pub mod Boot
pub mod Failures
pub mod Flags
