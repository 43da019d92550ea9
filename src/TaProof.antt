-- ===== src/TaProof.antt =====
-- crates/satusd-ta-proof/src: the verifier of Taproot Asset proof files.
pub mod Cursor
pub mod Tlv
pub mod Leaf
pub mod Mssmt
pub mod Anchor
pub mod Commitment
pub mod Lineage
