-- ===== src/Tests.antt =====
-- Examples: a program in a fixed state, and what the theorems say of it.
pub mod Setup
pub mod Decisions
pub mod Storage
pub mod Logs
pub mod Checks
pub mod Nodes
pub mod Alerts
pub mod Reports
pub mod Commands
