-- ===== src/Types.antt =====
-- crates/satusd-types/src/types.rs: the protocol's records and their canonical encodings, field by
-- field in the order of the source. A `[u8; N]` is its list of bytes.
mod Locks
mod Payouts
mod Clock
mod Claims
mod Positions
mod State
unfoldable pub use Locks.*
unfoldable pub use Payouts.*
unfoldable pub use Clock.*
unfoldable pub use Claims.*
unfoldable pub use Positions.*
unfoldable pub use State.*
