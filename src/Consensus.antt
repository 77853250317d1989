-- ===== src/Consensus.antt =====
-- internal/consensus: the quorum rule and the life of an incident.
mod Quorum
mod Manager
pub mod Votes
pub mod Lifecycle
pub mod Rows
pub mod Sound
unfoldable pub use Quorum.*
unfoldable pub use Manager.*
