-- ===== src/TaProof/Cursor.antt =====
-- crates/satusd-ta-proof/src/lib.rs: the errors, the cursor and the BigSize numbers. A `Cursor`
-- is the bytes that are left, and a read returns what it took and the cursor behind it: `i` is the
-- number of bytes taken, and `i != len` says that some are left.
pub mod Numbers
pub mod Canonical
use sats_usd.Base.{
  ℕ, ◌+◌, ◌*◌, ◌^◌, List, [], ◌∷◌, ◌++◌, Bytes, Result, ok, err, panic, ◌>>=◌, ◌>>◌, ensure, length,
  take, drop, get_or, leb, ltb, ◌==◌, not, if◌then◌else◌,
}
use sats_usd.Encoding.{u8, u16, u32, u64}

pub data ProofError : Type 0 where
  truncated bad_file_magic bad_proof_magic checksum_mismatch trailing_bytes : ProofError
  non_canonical_big_size tlv_out_of_order bad_anchor_tx anchor_merkle_mismatch : ProofError
  output_index_out_of_range not_p2tr bad_field_length commitment_mismatch : ProofError
  unsupported_tap_version lineage_broken empty_lineage bad_tap_sibling : ProofError

-- `uN::from_be_bytes`.
unfoldable pub from_be_bytes : Bytes → ℕ
from_be_bytes [] = 0
from_be_bytes (b ∷ bs) = b * 256 ^ length bs + from_be_bytes bs

-- `Cursor::take`.
unfoldable pub cursor_take : ℕ → Bytes → Result ProofError (Bytes × Bytes)
cursor_take n b = if leb n (length b) then ok (take n b, drop n b) else err truncated

unfoldable pub cursor_u32_be : Bytes → Result ProofError (ℕ × Bytes)
cursor_u32_be b = do (s, rest) ← cursor_take 4 b; ok (from_be_bytes s, rest)

-- One width of `bigsize`: a number of `n` bytes that must not fit a shorter form.
unfoldable pub cursor_wide : ℕ → ℕ → Bytes → Result ProofError (ℕ × Bytes)
cursor_wide n least b = do
  (s, rest) ← cursor_take n b
  ensure (not (ltb (from_be_bytes s) least)) non_canonical_big_size
  ok (from_be_bytes s, rest)

unfoldable pub cursor_bigsize : Bytes → Result ProofError (ℕ × Bytes)
cursor_bigsize b = do
  (s, rest) ← cursor_take 1 b
  let first = get_or s 0 0
  if first == 0xff
      then cursor_wide 8 0x1_0000_0000 rest
      else if first == 0xfe
      then cursor_wide 4 0x1_0000 rest
      else if first == 0xfd
      then cursor_wide 2 0xfd rest
      else ok (first, rest)

unfoldable pub write_bigsize : ℕ → Bytes
write_bigsize v =
    if ltb v 0xfd
    then u8 v
    else if leb v 0xffff
    then 0xfd ∷ u16 v
    else if leb v 0xffff_ffff
    then 0xfe ∷ u32 v
    else 0xff ∷ u64 v
