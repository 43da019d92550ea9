-- ===== src/Lib.antt =====
-- SatUSD: a Bitcoin-backed dollar whose state is one record, `StateRoot`, advanced by verified
-- transitions. Each transition has an executor `apply_*` that builds the next state and a verifier
-- `verify_*` that compares the executor's result with the claimed state. Balances of issuers,
-- operators, claims and locks are leaves of sparse Merkle trees whose roots the state holds; mints
-- need a Bitcoin deposit proved by SPV; a reserve backend holds the coins and pays finalized claims.
--
-- Where what is modelled:
--   Base: machine arithmetic, results and panics, byte strings, and a hash map as a list.
--   Crypto: the operations of the third-party cryptography (`Params`), and on them
--     crates/satusd-types/src/hash.rs and crates/satusd-crypto/src/{poseidon,ecdsa,eddsa,nums}.rs.
--   Encoding, Types: crates/satusd-types/src/encoding.rs and types.rs.
--   Domain, Derive, Tier: crates/satusd-types/src/domain.rs, derive.rs and tier.rs.
--   Smt: crates/satusd-crypto/src/smt.rs.
--   Transition: crates/satusd-crypto/src/state.rs, and what the transition verifiers share.
--   Spv, Mint, Registry, Oracle, Redeem: the files of these names in crates/satusd-state/src.
--   TaProof: crates/satusd-ta-proof/src/lib.rs and mssmt.rs: `Cursor` and `Tlv` the wire format, `Leaf`
--     the records, `Mssmt` the Merkle sum tree, `Anchor`, `Commitment` and `Lineage` the verifiers.
--   Da: crates/satusd-da/src/lib.rs, whose bundles a claim commits to.
--   Claim: crates/satusd-state/src/claim.rs: `Burn` the burn proof, `Batch` the loop over the
--     redemptions, `Submit` the verifier; it composes Spv, Oracle, Redeem, TaProof, Da and Smt.
--   Allot: crates/satusd-allot/src/plan.rs, with capacity.rs and encode.rs of crates/satusd-rail/src.
--   Reserve: crates/satusd-reserve/src/lib.rs, the mock and the multisig backend.
--   Tests: the theorems at concrete inputs, in a concrete instance of the cryptography.
--
-- How: a Rust integer is a natural number, its wrap-around written out as in a release build
-- (`+=` wraps, `checked_add` gives an option); a `Result` of code that may panic is `ok`, `err` or
-- `panic`. A `[u8; N]` is the list of its bytes. Code that changes an object takes it and returns it.
-- The cryptographic libraries are the fields of the record `Crypto`, a parameter of every definition
-- that uses them, and rust-bitcoin those of `Bitcoin` (TaProof/Anchor). The two records of laws,
-- `FieldBytes` (the bytes of a field element give it back) and `CollisionFree` (Poseidon taken to be
-- injective on pairs and never zero, short limbs read back), are hypotheses of the theorems that name
-- them. Fuel: `chunks(31)`, the TLV loop and the loop over the sections of a bundle have the number
-- of bytes, of which a round takes one or more; the batch root the number of its leaves, at least that
-- of its levels; the search for a NUMS key the 2^32 counters, behind which the counter overflows.
-- Loops over the 256 levels of a tree count them down.
--
-- Not modelled: the state node (node.rs), networking, storage, command lines, the rails and the vault.
pub mod Base
pub mod Crypto
pub mod Encoding
pub mod Types
pub mod Tier
pub mod Domain
pub mod Derive
pub mod Smt
pub mod Spv
pub mod Transition
pub mod Mint
pub mod Registry
pub mod Reserve
pub mod Oracle
pub mod TaProof
pub mod Redeem
pub mod Da
pub mod Claim
pub mod Allot
pub mod Tests
