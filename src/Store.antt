-- ===== src/Store.antt =====
-- internal/store/sqlite.go: the operations of SQLiteStore. Each is one statement, given first as a
-- function on the database and then run in the world, where the engine may refuse it.
-- INSERT refuses a primary key that is there, or a reference to a row that is not; DELETE refuses a
-- row that is referred to, but for alert channels, whose history goes with them.
mod Nodes
mod Monitors
mod Results
mod Incidents
mod Tokens
mod Channels
pub mod Consistency
pub mod Calls
pub mod SingleUse
pub mod RoundTrip
pub mod Streaks
pub mod Active
unfoldable pub use Nodes.*
unfoldable pub use Monitors.*
unfoldable pub use Results.*
unfoldable pub use Incidents.*
unfoldable pub use Tokens.*
unfoldable pub use Channels.*
