-- ===== src/Reserve.antt =====
-- crates/satusd-reserve/src/lib.rs: the BTC custody backends. Sats are `u64`: a plain `+=` or `-=`
-- wraps.
pub mod Mock
pub mod Multisig
mod Base
unfoldable pub use Base.*
