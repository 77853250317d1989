-- ===== src/Store/Consistency.antt =====
-- Every statement of the store keeps the keys unique and the references whole.
mod Parts
mod Writes
mod References
pub use Writes.*
pub use References.*
