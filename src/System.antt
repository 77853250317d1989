-- ===== src/System.antt =====
-- A node as a whole: its loops, its goroutines and the requests that it answers, in any order.
mod Run
pub mod Calm
pub mod Handlers
pub mod Parts
pub mod Orderly
pub mod Refusals
pub mod Failures
pub mod Travel
unfoldable pub use Run.*
