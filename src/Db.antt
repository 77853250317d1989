-- ===== src/Db.antt =====
-- internal/store/migrations.go: the tables, with their primary and foreign keys, over lists of rows.
mod Table
mod Rows
mod Schema
mod Codec
pub mod Keys
unfoldable pub use Table.*
unfoldable pub use Rows.*
unfoldable pub use Schema.*
pub use Codec.*
