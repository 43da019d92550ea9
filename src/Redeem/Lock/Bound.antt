-- ===== src/Redeem/Lock/Bound.antt =====
-- REDEEM_FAST_LOCK: the lineage behind a lock, and the tree of locks.
use sats_usd.Base.{
  ℕ, ◌≡◌, ◌&&◌, ap, ◌∙◌, List, Bytes, Bool, true, some, ok, value, ensure, ok_or, run, run_value,
  map_err, map_err_ok, ok_or-some, ensure-true, bind_ok, came, arith, length, take, drop, ◌==◌,
  ==_iff, bytes_eq, bytes_eq→eq,
}
use sats_usd.Crypto.{Crypto}
use sats_usd.Derive.{asset_family_id, lineage_proof_hash, lock_record_hash}
use sats_usd.Smt.{verify_inclusion, verify_exclusion, root_after_update}
use sats_usd.Smt.Sound.{updated_included}
use sats_usd.TaProof.Anchor.{Bitcoin, AnchorInfo}
use sats_usd.TaProof.Leaf.{AssetLeaf, asset_id, asset_leaf}
use sats_usd.TaProof.Lineage.{verify_lineage}
use sats_usd.TaProof.Lineage.Chain.{Lineage, verify_lineage-Lineage}
use sats_usd.TaProof.Tlv.{Proof, ProofFile, parse_proof_file, parsed}
use sats_usd.Transition.{next_state}
use sats_usd.Types.{LockRecord, StateRoot}
use sats_usd.Redeem.{
  lineage_proof_malformed, lineage_invalid, lock_script_key_mismatch, amount_mismatch,
  group_key_missing, asset_family_mismatch, lineage_anchor_mismatch, lineage_proof_hash_mismatch,
  lock_already_exists, set_member, check_intent_lock_binding,
}
use sats_usd.Redeem.Lock.{
  last_proof, key_33, RedeemLockWitness, head_checks, check_lineage_lock_binding, apply_redeem_lock,
}

both : (a b : Bool) → (a && b) ≡ true → (a ≡ true) × (b ≡ true)
both a b h = (ground arith, ground arith)

module _ ⦃c : Crypto⦄ ⦃bitcoin : Bitcoin⦄ where
  -- The proof file of a lock: a lineage whose head is the lock's anchor and whose last asset pays the
  -- lock's amount of its family to the lock's key.
  pub data Backed (proof_file_bytes : Bytes) (lock : LockRecord) (chain_id : ℕ) : Type 0 where
    backed :
        (file : ProofFile) (proofs : List Proof) (head : AnchorInfo) (p : Proof) (leaf : AssetLeaf)
        (group_key : Bytes)
        → parse_proof_file proof_file_bytes ≡ ok file
        → parsed file ≡ ok proofs
        → Lineage proofs head
        → last_proof proofs ≡ some p
        → asset_leaf p ≡ ok leaf
        → take 32 (drop 1 leaf.script_key) ≡ lock.lock_script_key
        → leaf.amount ≡ lock.lock_amount_atoms
        → key_33 leaf.group_key ≡ some group_key
        → asset_family_id (asset_id leaf.genesis) group_key chain_id ≡ lock.asset_family_id
        → head.txid ≡ lock.lock_anchor_outpoint.txid
        → head.output_index ≡ lock.lock_anchor_outpoint.vout
        → lineage_proof_hash proof_file_bytes ≡ lock.lineage_proof_hash
        → Backed proof_file_bytes lock chain_id

  head_bound :
      (bytes : Bytes) (lock : LockRecord) (chain_id : ℕ) (u : Unit {0}) (file : ProofFile)
      (proofs : List Proof) (head : AnchorInfo) (p : Proof) (leaf : AssetLeaf)
      → parse_proof_file bytes ≡ ok file
      → parsed file ≡ ok proofs
      → verify_lineage proofs ≡ ok head
      → last_proof proofs ≡ some p
      → asset_leaf p ≡ ok leaf
      → head_checks bytes lock chain_id head leaf ≡ ok u
      → Backed bytes lock chain_id
  unfolding head_checks
  head_bound bytes lock chain_id u file proofs head p leaf h1 h2 h3 h4 h5 e =
      let key = take 32 (drop 1 leaf.script_key) in
      elim (bind_ok (ensure (length leaf.script_key == 33) lineage_proof_malformed) _ e) [
        | came _ _ e1 ↦
            elim (bind_ok (ensure (bytes_eq key lock.lock_script_key) lock_script_key_mismatch) _
              e1) [
                | came _ k e2 ↦
                    elim (bind_ok (ensure (leaf.amount == lock.lock_amount_atoms) amount_mismatch) _
                      e2) [
                        | came _ a e3 ↦
                            elim (bind_ok (ok_or (key_33 leaf.group_key) group_key_missing) _ e3) [
                              | came group_key g e4 ↦
                                  let family =
                                    asset_family_id (asset_id leaf.genesis) group_key chain_id in
                                  elim (bind_ok
                                    (ensure (bytes_eq family lock.asset_family_id)
                                      asset_family_mismatch)
                                    _ e4) [
                                      | came _ f e5 ↦
                                          elim (bind_ok
                                            (ensure
                                              (bytes_eq head.txid lock.lock_anchor_outpoint.txid
                                                && (head.output_index
                                                    == lock.lock_anchor_outpoint.vout))
                                              lineage_anchor_mismatch)
                                            _ e5) [
                                              | came _ o e6 ↦
                                                  elim (bind_ok
                                                    (ensure
                                                      (bytes_eq (lineage_proof_hash bytes)
                                                        lock.lineage_proof_hash)
                                                      lineage_proof_hash_mismatch)
                                                    _ e6) [
                                                      | came _ l _ ↦
                                                          let (txid, vout) = both _ _ (
                                                            ensure-true _ lineage_anchor_mismatch
                                                            o) in
                                                          backed file proofs head p leaf group_key
                                                            h1 h2
                                                            ((verify_lineage-Lineage proofs head).0
                                                            h3)
                                                            h4 h5
                                                            (bytes_eq→eq _ _ (
                                                            ensure-true _ lock_script_key_mismatch
                                                            k))
                                                            ((==_iff _ _).0
                                                            (ensure-true _ amount_mismatch a))
                                                            (ok_or-some _ group_key_missing g)
                                                            (bytes_eq→eq _ _
                                                            (ensure-true _ asset_family_mismatch f))
                                                            (bytes_eq→eq _ _ txid)
                                                            ((==_iff _ _).0 vout)
                                                            (bytes_eq→eq _ _ (
                                                            ensure-true _
                                                            lineage_proof_hash_mismatch l))
                                                    ]
                                            ]
                                    ]
                            ]
                      ]
              ]
      ]

  check_lineage_lock_binding-Backed :
      (bytes : Bytes) (lock : LockRecord) (chain_id : ℕ) (u : Unit {0})
      → check_lineage_lock_binding bytes lock chain_id ≡ ok u
      → Backed bytes lock chain_id
  unfolding check_lineage_lock_binding head_checks
  check_lineage_lock_binding-Backed bytes lock chain_id u e =
      elim (bind_ok (map_err _ (parse_proof_file bytes)) _ e) [
        | came file h1 e1 ↦ elim (bind_ok (map_err _ (parsed file)) _ e1) [
          | came proofs h2 e2 ↦ elim (bind_ok (map_err _ (verify_lineage proofs)) _ e2) [
            | came head h3 e3 ↦ elim (bind_ok (ok_or (last_proof proofs) lineage_invalid) _ e3) [
              | came p h4 e4 ↦ elim (bind_ok (map_err _ (asset_leaf p)) _ e4) [
                | came leaf h5 e5 ↦
                    head_bound bytes lock chain_id u file proofs head p leaf
                      (map_err_ok _ (parse_proof_file bytes) h1) (map_err_ok _ (parsed file) h2)
                      (map_err_ok _ (verify_lineage proofs) h3) (ok_or-some _ lineage_invalid h4)
                      (map_err_ok _ (asset_leaf p) h5) e5
              ]
            ]
          ]
        ]
      ]

  -- An accepted REDEEM_FAST_LOCK has a proof file, of the hash that the lock commits to, whose
  -- proofs are a lineage headed by the lock's anchor, and whose last asset pays the lock's amount
  -- of its family to the lock's key; the lock was absent from the record tree and is written to
  -- it, and the consumed and refunded trees, supply and reserve stay.
  pub apply_redeem_lock-Backed :
      (prev new : StateRoot) (w : RedeemLockWitness)
      → apply_redeem_lock prev w ≡ ok new
      → let lr_hash = lock_record_hash w.lock_record in
        Backed w.lineage_proof w.lock_record w.redeem_intent.network
        × (verify_exclusion prev.lock_record_root lr_hash w.lock_exclusion_proof ≡ true)
        × (root_after_update lr_hash set_member w.lock_exclusion_proof ≡ value new.lock_record_root)
        × (verify_inclusion new.lock_record_root lr_hash set_member w.lock_exclusion_proof ≡ true)
        × (new.lock_consumed_root ≡ prev.lock_consumed_root)
        × (new.lock_refund_root ≡ prev.lock_refund_root)
        × (new.sat_usd_supply_atoms ≡ prev.sat_usd_supply_atoms)
        × (new.reserve_btc_sats ≡ prev.reserve_btc_sats)
  unfolding apply_redeem_lock next_state
  apply_redeem_lock-Backed prev new w e =
      let lr_hash = lock_record_hash w.lock_record in
      elim (bind_ok
        (check_intent_lock_binding w.redeem_intent w.lock_record prev.satusd_asset_family_id) _ e) [
          | came _ i e1 ↦
              elim (bind_ok
                (check_lineage_lock_binding w.lineage_proof w.lock_record w.redeem_intent.network) _
                e1) [
                  | came u b e2 ↦
                      elim (bind_ok
                        (ensure
                          (verify_exclusion prev.lock_record_root lr_hash w.lock_exclusion_proof)
                          lock_already_exists)
                        _ e2) [
                          | came _ x e3 ↦
                              elim (bind_ok
                                (run (root_after_update lr_hash set_member w.lock_exclusion_proof))
                                _ e3) [
                                  | came root r e4 ↦
                                      let absent : verify_exclusion prev.lock_record_root lr_hash
                                            w.lock_exclusion_proof
                                          ≡ true =
                                        ensure-true _ lock_already_exists x in
                                      let written : root_after_update lr_hash set_member
                                            w.lock_exclusion_proof
                                          ≡ value new.lock_record_root =
                                        run_value _ r ∙ ap value (ground arith) in
                                      (
                                        check_lineage_lock_binding-Backed _ _ _ u b,
                                        absent,
                                        written,
                                        updated_included lr_hash set_member prev.lock_record_root
                                            new.lock_record_root w.lock_exclusion_proof absent
                                            written,
                                        ground arith,
                                        ground arith,
                                        ground arith,
                                        ground arith,
                                      )
                                ]
                        ]
                ]
        ]
