-- ===== src/Crypto/Poseidon.antt =====
-- crates/satusd-crypto/src/poseidon.rs
use sats_usd.Base.{
  ◌*◌, map, ltb, if◌then◌else◌, ℕ, zero, suc, ◌-◌, List, [], ◌∷◌, ◌++◌, Bytes, length, take, drop,
  replicate,
}
use sats_usd.Crypto.Params.{Crypto}

-- `input.chunks(31)`, with fuel for the bytes left.
unfoldable pub chunks_31 : ℕ → Bytes → List Bytes
chunks_31 zero bs = []
chunks_31 (suc f) [] = []
chunks_31 (suc f) (b ∷ bs) = take 31 (b ∷ bs) ∷ chunks_31 f (drop 31 (b ∷ bs))

module _ ⦃c : Crypto⦄ where
  unfoldable pub fr_to_be_bytes : c.Fr → Bytes
  fr_to_be_bytes x = let v = c.fr_to_be x in replicate (32 - length v) 0 ++ v

  unfoldable pub fr_from_be_bytes : Bytes → c.Fr
  fr_from_be_bytes b = c.fr_from_be_mod_order b

  unfoldable pub poseidon2 : c.Fr → c.Fr → c.Fr
  poseidon2 a b = c.poseidon (a ∷ b ∷ [])

  -- `acc = poseidon2(acc, limb)` over the limbs.
  unfoldable pub fold_limbs : c.Fr → List Bytes → c.Fr
  fold_limbs acc [] = acc
  fold_limbs acc (chunk ∷ rest) = fold_limbs (poseidon2 acc (fr_from_be_bytes chunk)) rest

  unfoldable pub hash_bytes : Bytes → c.Fr
  unfolding fold_limbs chunks_31
  hash_bytes input = fold_limbs (c.fr_from 0) (chunks_31 (length input) input)

  unfoldable pub oracle_message_hash : ℕ → ℕ → ℕ → ℕ → Bytes
  unfolding fr_to_be_bytes
  oracle_message_hash oracle_set_epoch price_epoch timestamp_ms price_e8 = fr_to_be_bytes (
      c.poseidon (
        c.fr_from oracle_set_epoch
        ∷ c.fr_from price_epoch
        ∷ c.fr_from timestamp_ms
        ∷ c.fr_from price_e8
        ∷ []))

  -- `while n < leaves.len() { n <<= 1; }` and the `resize`: the zeros that are missing at the size
  -- `n`, with fuel for the doublings.
  unfoldable pub padded_size : ℕ → ℕ → ℕ → ℕ
  padded_size zero len n = n
  padded_size (suc f) len n = let next = padded_size f len (n * 2) in if ltb n len then next else n

  -- One level: `level.chunks(2)`, of an even length.
  unfoldable pub next_level : List c.Fr → List c.Fr
  next_level [] = []
  next_level (a ∷ []) = []
  next_level (a ∷ b ∷ level) = poseidon2 a b ∷ next_level level

  -- `while level.len() > 1`, with fuel for the levels.
  unfoldable pub fold_levels : ℕ → List c.Fr → c.Fr
  fold_levels f [] = c.fr_from 0
  fold_levels f (a ∷ []) = a
  fold_levels zero (a ∷ b ∷ level) = a
  fold_levels (suc f) (a ∷ b ∷ level) = fold_levels f (next_level (a ∷ b ∷ level))

  unfoldable pub batch_root : List c.Fr → c.Fr
  unfolding padded_size fold_levels
  batch_root [] = c.fr_from 0
  batch_root (a ∷ leaves) =
      let len = length (a ∷ leaves) in
      let n = padded_size len len 1 in
      fold_levels len ((a ∷ leaves) ++ replicate (n - len) (c.fr_from 0))

  unfoldable pub batch_root_be : List Bytes → Bytes
  unfolding batch_root fr_to_be_bytes fr_from_be_bytes
  batch_root_be leaves_be = fr_to_be_bytes (batch_root (map fr_from_be_bytes leaves_be))
