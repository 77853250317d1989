-- ===== src/Api.antt =====
-- internal/api: the handlers of the two servers.
pub mod Reply
mod Peer
mod Url
mod Monitors
mod Channels
mod Reports
pub mod Joining
pub mod History
pub mod Probing
unfoldable pub use Reply.*
unfoldable pub use Peer.*
unfoldable pub use Url.*
unfoldable pub use Channels.*
unfoldable pub use Reports.*
unfoldable pub use Monitors.*
