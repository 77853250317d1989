-- ===== src/Checker.antt =====
-- internal/checker: how a probe of the network becomes an outcome.
mod Outcome
mod Target
mod Http
mod Keyword
mod Dns
mod Reach
mod Registry
pub mod Verdicts
unfoldable pub use Outcome.*
unfoldable pub use Target.*
unfoldable pub use Http.*
unfoldable pub use Keyword.*
unfoldable pub use Dns.*
unfoldable pub use Reach.*
unfoldable pub use Registry.*
