-- ===== src/Spv.antt =====
-- crates/satusd-state/src/spv.rs
mod Tx
mod Chain
mod Verify
pub mod Accepted
unfoldable pub use Tx.*
unfoldable pub use Chain.*
unfoldable pub use Verify.*
