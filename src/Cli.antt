-- ===== src/Cli.antt =====
-- internal/cli: the commands that set a node up.
mod Steps
mod Setup
pub mod Once
unfoldable pub use Steps.*
unfoldable pub use Setup.*
