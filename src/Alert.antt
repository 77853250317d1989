-- ===== src/Alert.antt =====
-- internal/alert/alert.go: who is told of an incident, and the record of each delivery.
mod Wire
mod Payload
pub mod Webhook
pub mod Email
mod Dispatch
pub mod Fanout
pub mod Receipt
unfoldable pub use Wire.*
unfoldable pub use Dispatch.*
unfoldable pub use Payload.*
