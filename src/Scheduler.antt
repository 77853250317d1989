-- ===== src/Scheduler.antt =====
-- internal/agent/scheduler.go: the monitors that are checked periodically, and one check.
mod Table
mod Loops
mod Check
pub mod Attempts
pub mod Reading
pub mod Stored
pub mod Sync
pub mod Goroutines
pub mod Invariant
pub mod Busy
pub mod Overlap
unfoldable pub use Table.*
unfoldable pub use Loops.*
unfoldable pub use Check.*
