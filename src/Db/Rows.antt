-- ===== src/Db/Rows.antt =====
-- internal/store/sqlite.go: how a record is written to a row and read back. A column that may be
-- NULL is an Option. Nodes and alert records have the columns of their records.
mod Nulls
mod Monitors
mod Results
mod Incidents
mod Alerts
unfoldable pub use Nulls.*
unfoldable pub use Monitors.*
unfoldable pub use Results.*
unfoldable pub use Incidents.*
unfoldable pub use Alerts.*
