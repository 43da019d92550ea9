-- ===== src/TaProof/Lineage.antt =====
-- crates/satusd-ta-proof/src/lib.rs: `prev_outpoint` and `verify_lineage`.
pub mod Chain
use sats_usd.Base.{
  ℕ, List, [], ◌∷◌, Bytes, Option, none, some, Result, ok, err, ◌>>=◌, ◌>>◌, ensure, ok_or, length,
  take, drop, bytes_eq, ◌==◌, ◌&&◌,
}
use sats_usd.Crypto.{Crypto}
use sats_usd.TaProof.Cursor.{
  ProofError, truncated, bad_field_length, lineage_broken, empty_lineage, from_be_bytes,
}
use sats_usd.TaProof.Tlv.{Proof, get_field}
use sats_usd.TaProof.Anchor.{Bitcoin, AnchorInfo}
use sats_usd.TaProof.Commitment.{verify_asset_inclusion}

unfoldable pub prev_outpoint : Proof → Result ProofError (Bytes × ℕ)
prev_outpoint proof = do
  v ← ok_or (get_field proof 2) truncated
  ensure (length v == 36) bad_field_length
  ok (take 32 v, from_be_bytes (drop 32 v))

-- `if let Some(prev) = &prev { .. }`
unfoldable pub follows : Option AnchorInfo → Proof → Result ProofError (Unit {0})
follows none proof = ok tt
follows (some prev) proof = do
  (txid, vout) ← prev_outpoint proof
  ensure (bytes_eq txid prev.txid && (vout == prev.output_index)) lineage_broken

module _ ⦃c : Crypto⦄ ⦃bitcoin : Bitcoin⦄ where
  -- The loop over the proofs.
  unfoldable pub lineage_from : Option AnchorInfo → List Proof → Result ProofError AnchorInfo
  lineage_from prev [] = ok_or prev empty_lineage
  lineage_from prev (p ∷ proofs) = do
    anchor ← verify_asset_inclusion p
    follows prev p
    lineage_from (some anchor) proofs

  unfoldable pub verify_lineage : List Proof → Result ProofError AnchorInfo
  verify_lineage proofs = lineage_from none proofs
