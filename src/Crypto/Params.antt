-- ===== src/Crypto/Params.antt =====
-- What the crates call of the cryptographic libraries: the operations as fields, their types
-- abstract.
use sats_usd.Base.{ℕ, List, Bytes, Bool, Option}

pub record Crypto : Type 1 where
  -- sha2: SHA-256 of a byte string.
  pub sha2 : Bytes → Bytes
  -- ark_bn254: the scalar field, `Fr::from`, `Fr::from_be_bytes_mod_order` and
  -- `into_bigint().to_bytes_be()`.
  pub Fr : Type 0
  pub fr_from : ℕ → Fr
  pub fr_from_be_mod_order : Bytes → Fr
  pub fr_to_be : Fr → Bytes
  -- light_poseidon: the circom Poseidon of a list of field elements.
  pub poseidon : List Fr → Fr
  -- secp256k1: compressed keys, compact signatures, ECDSA.
  pub EcdsaKey : Type 0
  pub EcdsaSignature : Type 0
  pub ecdsa_key : Bytes → Option EcdsaKey
  pub ecdsa_signature : Bytes → Option EcdsaSignature
  pub ecdsa_verify : Bytes → EcdsaSignature → EcdsaKey → Bool
  -- secp256k1: x-only keys and the taproot tweak.
  pub XOnlyKey : Type 0
  pub Scalar : Type 0
  pub xonly_from : Bytes → Option XOnlyKey
  pub xonly_serialize : XOnlyKey → Bytes
  pub scalar_from_be : Bytes → Option Scalar
  pub add_tweak : XOnlyKey → Scalar → Option XOnlyKey
  -- babyjubjub-rs.
  pub BjjPoint : Type 0
  pub BjjSignature : Type 0
  pub decompress_point : Bytes → Option BjjPoint
  pub decompress_signature : Bytes → Option BjjSignature
  pub bjj_verify : BjjPoint → BjjSignature → Bytes → Bool
