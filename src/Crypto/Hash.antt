-- ===== src/Crypto/Hash.antt =====
-- crates/satusd-types/src/hash.rs, crates/satusd-crypto/src/ecdsa.rs, eddsa.rs and nums.rs
use mathlib.Core.List.{flatten}
use sats_usd.Base.{List, [], ◌∷◌, ◌++◌, Bytes, Bool, false, none, some, Eval, value, panicked}
use sats_usd.Crypto.Params.{Crypto}

module _ ⦃c : Crypto⦄ where
  -- SHA-256 of the concatenated parts.
  unfoldable pub sha256 : List Bytes → Bytes
  sha256 parts = c.sha2 (flatten parts)

  -- `SHA256(name_bytes || body)`.
  unfoldable pub tagged_hash : Bytes → Bytes → Bytes
  tagged_hash name body = sha256 (name ∷ body ∷ [])

  unfoldable pub verify_ecdsa : Bytes → Bytes → Bytes → Bool
  verify_ecdsa msg32 pubkey33 sig64 = elim (c.ecdsa_key pubkey33) [
    | none ↦ false
    | some pk ↦ elim (c.ecdsa_signature sig64) [
      | none ↦ false
      | some sig ↦ c.ecdsa_verify msg32 sig pk
    ]
  ]

  unfoldable pub verify_eddsa_babyjub : Bytes → Bytes → Bytes → Bool
  verify_eddsa_babyjub pubkey msg_be sig = elim (c.decompress_point pubkey) [
    | none ↦ false
    | some point ↦ elim (c.decompress_signature sig) [
      | none ↦ false
      | some signature ↦ c.bjj_verify point signature msg_be
    ]
  ]

  -- The BIP341 hash `SHA256(SHA256(tag) || SHA256(tag) || msg)` of nums.rs.
  unfoldable pub bip341_hash : Bytes → Bytes → Bytes
  unfolding sha256
  bip341_hash tag msg = let th = sha256 (tag ∷ []) in sha256 (th ∷ th ∷ msg ∷ [])

  -- "TapTweak"
  abbrev pub tap_tweak_tag : Bytes
  tap_tweak_tag = b'T' ∷ b'a' ∷ b'p' ∷ b'T' ∷ b'w' ∷ b'e' ∷ b'a' ∷ b'k' ∷ []

  -- Each `expect` is a panic.
  unfoldable pub tap_tweak_data : Bytes → Bytes → Eval Bytes
  unfolding bip341_hash
  tap_tweak_data internal_xonly tweak = elim (c.xonly_from internal_xonly) [
    | none ↦ panicked
    | some internal ↦
        elim (c.scalar_from_be (bip341_hash tap_tweak_tag (internal_xonly ++ tweak))) [
          | none ↦ panicked
          | some t ↦ elim (c.add_tweak internal t) [
            | none ↦ panicked
            | some tweaked ↦ value (c.xonly_serialize tweaked)
          ]
        ]
  ]

  unfoldable pub tap_tweak : Bytes → Bytes → Eval Bytes
  unfolding tap_tweak_data
  tap_tweak internal_xonly tweak = tap_tweak_data internal_xonly tweak
