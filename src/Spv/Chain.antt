-- ===== src/Spv/Chain.antt =====
-- Double SHA-256, block headers, the proof-of-work target and the Merkle branch.
use mathlib.Core.List.{reverse}
use sats_usd.Base.{
  ℕ, ◌+◌, ◌-◌, ◌*◌, ◌/◌, ◌%◌, ◌^◌, List, [], ◌∷◌, ◌++◌, Bytes, Bool, take, drop, replicate, set,
  ltb, leb, ◌==◌, if◌then◌else◌,
}
use sats_usd.Crypto.{Crypto, sha256}
use sats_usd.Derive.{bytes_leb}
use sats_usd.Spv.Tx.{from_le_bytes}

module _ ⦃c : Crypto⦄ where
  unfoldable pub dsha256 : Bytes → Bytes
  dsha256 b = sha256 (sha256 (b ∷ []) ∷ [])

  unfoldable pub block_hash : Bytes → Bytes
  block_hash header = dsha256 header

  -- `merkle_root_from_proof`.
  unfoldable pub merkle_root_from_proof : Bytes → ℕ → List Bytes → Bytes
  merkle_root_from_proof h index [] = h
  merkle_root_from_proof h index (sib ∷ branch) =
      merkle_root_from_proof (dsha256 (if index % 2 == 0 then h ++ sib else sib ++ h)) (index / 2)
        branch

unfoldable pub prev_block_hash : Bytes → Bytes
prev_block_hash header = take 32 (drop 4 header)

unfoldable pub merkle_root_field : Bytes → Bytes
merkle_root_field header = take 32 (drop 36 header)

-- One mantissa byte: `pos = 34 - exp - i`, written where it lies in 0..32.
unfoldable pub put_mantissa : ℕ → ℕ → ℕ → Bytes → Bytes
put_mantissa exp mant i t =
    if leb (exp + i) 34
    then if ltb (34 - exp - i) 32 then set t (34 - exp - i) (mant / 2 ^ (8 * i) % 256) else t
    else t

unfoldable pub target_from_nbits : ℕ → Bytes
unfolding put_mantissa
target_from_nbits nbits =
    let exp = nbits / 2 ^ 24 in
    let mant = nbits % 2 ^ 23 in
    put_mantissa exp mant 2 (put_mantissa exp mant 1 (put_mantissa exp mant 0 (replicate 32 0)))

unfoldable pub pow_ok : ⦃c : Crypto⦄ → Bytes → Bool
pow_ok header =
    let nbits = from_le_bytes (take 4 (drop 72 header)) in
    bytes_leb (reverse (block_hash header)) (target_from_nbits nbits)
