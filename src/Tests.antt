-- ===== src/Tests.antt =====
-- Runs of the definitions and of the theorems on concrete inputs.
mod Scheduling
mod Learning
mod Parsing
mod Stored
mod Applied
mod Lifecycle
mod Tuning
mod Commands
mod Round
mod Restored
