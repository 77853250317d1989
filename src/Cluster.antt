-- ===== src/Cluster.antt =====
-- internal/cluster: who is online, and the tokens by which nodes join.
mod Manager
mod Join
pub mod PeerClient
pub mod Offline
unfoldable pub use Manager.*
unfoldable pub use Join.*
