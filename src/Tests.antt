-- ===== src/Tests.antt =====
-- Runs of the model at concrete inputs, and each theorem applied to one.
mod Packages
mod Records
mod Archives
mod Installs
mod Libraries
mod Queues
mod Plans
mod Versions
mod Patterns
mod Loaders
mod Boots
mod Fixes
mod Settings
