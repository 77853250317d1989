-- ===== src/Agent.antt =====
-- internal/agent/agent.go: the coordinator's consensus and the distribution of the configuration.
mod Evaluate
mod Sync
pub mod Periodic
pub mod Effects
pub mod Merge
pub mod Announce
pub mod Decisions
pub mod Outage
unfoldable pub use Evaluate.*
unfoldable pub use Sync.*
