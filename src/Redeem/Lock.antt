-- ===== src/Redeem/Lock.antt =====
-- crates/satusd-state/src/redeem.rs: REDEEM_FAST_LOCK and the binding of a lock to the lineage of
-- its asset.
pub mod Bound
use sats_usd.Base.{
  ℕ, List, [], ◌∷◌, Bytes, ◌&&◌, Option, none, some, Result, ok, err, panic, ◌>>=◌, ◌>>◌, ensure,
  ok_or, run, map_err, length, take, drop, ◌==◌, bytes_eq, if◌then◌else◌,
}
use sats_usd.Crypto.{Crypto}
use sats_usd.Derive.{asset_family_id, lineage_proof_hash, lock_record_hash}
use sats_usd.Smt.{verify_exclusion, root_after_update}
use sats_usd.TaProof.Anchor.{Bitcoin, AnchorInfo}
use sats_usd.TaProof.Leaf.{AssetLeaf, asset_id, asset_leaf}
use sats_usd.TaProof.Lineage.{verify_lineage}
use sats_usd.TaProof.Tlv.{Proof, parse_proof_file, parsed}
use sats_usd.Transition.{next_state, verified}
use sats_usd.Types.{RedeemIntent, LockRecord, StateRoot, TransitionType}
use sats_usd.Redeem.{
  RedeemRejectReason, lineage_proof_malformed, lineage_invalid, lock_script_key_mismatch,
  amount_mismatch, group_key_missing, asset_family_mismatch, lineage_anchor_mismatch,
  lineage_proof_hash_mismatch, lock_already_exists, post_state_mismatch, set_member,
  check_intent_lock_binding,
}

-- `proofs.last()`.
unfoldable pub last_proof : List Proof → Option Proof
last_proof [] = none
last_proof (p ∷ []) = some p
last_proof (p ∷ q ∷ proofs) = last_proof (q ∷ proofs)

-- `and_then(|g| <[u8; 33]>::try_from(g).ok())`.
unfoldable pub key_33 : Option Bytes → Option Bytes
key_33 none = none
key_33 (some g) = if length g == 33 then some g else none

pub record RedeemLockWitness : Type 0 where
  pub redeem_intent : RedeemIntent
  pub lock_record : LockRecord
  pub lock_exclusion_proof : List Bytes
  pub lineage_proof : Bytes

module _ ⦃c : Crypto⦄ ⦃bitcoin : Bitcoin⦄ where
  -- The checks of `check_lineage_lock_binding` on the head of the lineage.
  unfoldable pub head_checks :
      Bytes → LockRecord → ℕ → AnchorInfo → AssetLeaf → Result RedeemRejectReason (Unit {0})
  head_checks proof_file_bytes lock chain_id head head_leaf = do
    ensure (length head_leaf.script_key == 33) lineage_proof_malformed
    ensure (bytes_eq (take 32 (drop 1 head_leaf.script_key)) lock.lock_script_key)
        lock_script_key_mismatch
    ensure (head_leaf.amount == lock.lock_amount_atoms) amount_mismatch
    group_key ← ok_or (key_33 head_leaf.group_key) group_key_missing
    ensure
        (bytes_eq (asset_family_id (asset_id head_leaf.genesis) group_key chain_id)
          lock.asset_family_id)
        asset_family_mismatch
    ensure
        (bytes_eq head.txid lock.lock_anchor_outpoint.txid
          && (head.output_index == lock.lock_anchor_outpoint.vout))
        lineage_anchor_mismatch
    ensure (bytes_eq (lineage_proof_hash proof_file_bytes) lock.lineage_proof_hash)
        lineage_proof_hash_mismatch
    ok tt

  unfoldable pub check_lineage_lock_binding :
      Bytes → LockRecord → ℕ → Result RedeemRejectReason (Unit {0})
  check_lineage_lock_binding proof_file_bytes lock chain_id = do
    file ← map_err (λ _. lineage_proof_malformed) (parse_proof_file proof_file_bytes)
    proofs ← map_err (λ _. lineage_proof_malformed) (parsed file)
    head ← map_err (λ _. lineage_invalid) (verify_lineage proofs)
    head_proof ← ok_or (last_proof proofs) lineage_invalid
    head_leaf ← map_err (λ _. lineage_proof_malformed) (asset_leaf head_proof)
    head_checks proof_file_bytes lock chain_id head head_leaf

  unfoldable pub apply_redeem_lock :
      StateRoot → RedeemLockWitness → Result RedeemRejectReason StateRoot
  apply_redeem_lock prev w = do
    check_intent_lock_binding w.redeem_intent w.lock_record prev.satusd_asset_family_id
    check_lineage_lock_binding w.lineage_proof w.lock_record w.redeem_intent.network
    let lr_hash = lock_record_hash w.lock_record
    ensure (verify_exclusion prev.lock_record_root lr_hash w.lock_exclusion_proof)
        lock_already_exists
    let expected = next_state prev TransitionType.redeem_fast_lock
    new_root ← run (root_after_update lr_hash set_member w.lock_exclusion_proof)
    ok (record expected { lock_record_root = new_root })

  unfoldable pub verify_redeem_lock :
      StateRoot → StateRoot → RedeemLockWitness → Result RedeemRejectReason (Unit {0})
  verify_redeem_lock prev new w = verified post_state_mismatch (apply_redeem_lock prev w) new
