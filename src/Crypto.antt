-- ===== src/Crypto.antt =====
-- The functions of crates/satusd-crypto and crates/satusd-types/src/hash.rs, over the libraries
-- that they call (sha2, ark_bn254, light_poseidon, secp256k1, babyjubjub-rs), which are the
-- parameter `Crypto`.
mod Params
mod Hash
mod Poseidon
mod Nums
pub use Params.*
unfoldable pub use Hash.*
unfoldable pub use Poseidon.*
unfoldable pub use Nums.*
