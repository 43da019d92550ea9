-- ===== src/Claim/Burn.antt =====
-- crates/satusd-state/src/claim.rs: `check_burn_proof_binding`.
use sats_usd.Base.{
  ℕ, ◌&&◌, Bytes, Result, ok, ◌>>=◌, ◌>>◌, ensure, ok_or, map_err, length, take, drop, ◌==◌,
  bytes_eq,
}
use sats_usd.Crypto.{Crypto}
use sats_usd.Derive.{asset_family_id, lineage_proof_hash}
use sats_usd.TaProof.Anchor.{Bitcoin, AnchorInfo}
use sats_usd.TaProof.Leaf.{AssetLeaf, asset_id, asset_leaf}
use sats_usd.TaProof.Lineage.{verify_lineage}
use sats_usd.TaProof.Tlv.{parse_proof_file, parsed}
use sats_usd.Redeem.Lock.{last_proof, key_33}
use sats_usd.Types.{LockFinalizeRecord}
use sats_usd.Claim.{
  ClaimRejectReason, burn_proof_malformed, burn_proof_invalid, burn_proof_script_key_mismatch,
  burn_proof_amount_mismatch, burn_proof_family_mismatch, burn_proof_anchor_mismatch,
  burn_proof_hash_mismatch,
}

module _ ⦃c : Crypto⦄ where
  -- The checks on the head of the lineage.
  unfoldable pub burn_checks :
      Bytes
      → LockFinalizeRecord
      → Bytes
      → ℕ
      → AnchorInfo
      → AssetLeaf
      → Result ClaimRejectReason (Unit {0})
  burn_checks burn_proof_bytes fin family chain_id head head_leaf = do
    ensure (length head_leaf.script_key == 33) burn_proof_malformed
    ensure (bytes_eq (take 32 (drop 1 head_leaf.script_key)) fin.protocol_sink_script_key)
        burn_proof_script_key_mismatch
    ensure (head_leaf.amount == fin.finalized_amount_atoms) burn_proof_amount_mismatch
    group_key ← ok_or (key_33 head_leaf.group_key) burn_proof_family_mismatch
    ensure (bytes_eq (asset_family_id (asset_id head_leaf.genesis) group_key chain_id) family)
        burn_proof_family_mismatch
    ensure
        (bytes_eq head.txid fin.finalize_anchor_outpoint.txid
          && (head.output_index == fin.finalize_anchor_outpoint.vout))
        burn_proof_anchor_mismatch
    ensure (bytes_eq (lineage_proof_hash burn_proof_bytes) fin.universe_burn_proof_hash)
        burn_proof_hash_mismatch
    ok tt

  module _ ⦃bitcoin : Bitcoin⦄ where
    unfoldable pub check_burn_proof_binding :
        Bytes → LockFinalizeRecord → Bytes → ℕ → Result ClaimRejectReason (Unit {0})
    check_burn_proof_binding burn_proof_bytes fin family chain_id = do
      file ← map_err (λ _. burn_proof_malformed) (parse_proof_file burn_proof_bytes)
      proofs ← map_err (λ _. burn_proof_malformed) (parsed file)
      head ← map_err (λ _. burn_proof_invalid) (verify_lineage proofs)
      head_proof ← ok_or (last_proof proofs) burn_proof_invalid
      head_leaf ← map_err (λ _. burn_proof_malformed) (asset_leaf head_proof)
      burn_checks burn_proof_bytes fin family chain_id head head_leaf
