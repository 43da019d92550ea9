-- ===== src/Redeem.antt =====
-- crates/satusd-state/src/redeem.rs: the binding of a lock to its intent, and LOCK_REFUND.
pub mod Refund
pub mod Lock
use sats_usd.Base.{
  ℕ, List, [], ◌∷◌, Bytes, Bool, true, false, ◌&&◌, Option, none, some, Result, ok, err, panic,
  ◌>>=◌, ◌>>◌, ensure, ok_or, run, replicate, ltb, leb, ◌==◌, ◌+◌, ◌^◌, bytes_eq, not,
  if◌then◌else◌,
}
use sats_usd.Crypto.{Crypto, tap_tweak}
use sats_usd.Derive.{redeem_intent_hash, lock_tweak, lock_record_hash}
use sats_usd.Mint.{is_none}
use sats_usd.Smt.{verify_inclusion, verify_exclusion, root_after_update}
use sats_usd.Transition.{next_state, verified}
use sats_usd.Types.{RedeemIntent, LockRecord, LockRefundRecord, StateRoot, TransitionType}

abbrev pub min_redemption_atoms : ℕ
min_redemption_atoms = 100

abbrev pub max_redemption_atoms : ℕ
max_redemption_atoms = 1000000000

abbrev pub refund_safety_delta : ℕ
refund_safety_delta = 24

abbrev pub mode_fast_operator : ℕ
mode_fast_operator = 0

abbrev pub set_member : Bytes
set_member = replicate 32 1

pub data RedeemRejectReason : Type 0 where
  bad_state_linkage wrong_transition_type post_state_mismatch overflow : RedeemRejectReason
  intent_hash_mismatch lock_script_key_mismatch asset_family_mismatch : RedeemRejectReason
  amount_mismatch amount_out_of_range wrong_mode operator_id_missing : RedeemRejectReason
  csv_too_short payment_hash_mismatch lineage_invalid lineage_proof_malformed : RedeemRejectReason
  lineage_proof_hash_mismatch lineage_anchor_mismatch group_key_missing : RedeemRejectReason
  lock_already_exists lock_not_active lock_consumed lock_refunded : RedeemRejectReason
  nullifier_used preimage_mismatch burn_sink_mismatch : RedeemRejectReason
  burn_internal_key_mismatch burn_proof_invalid finalize_amount_mismatch : RedeemRejectReason
  finalize_operator_mismatch : RedeemRejectReason

-- `checked_add` of `u32`.
abbrev pub checked_add_u32 : ℕ → ℕ → Option ℕ
checked_add_u32 a b = if ltb (a + b) (2 ^ 32) then some (a + b) else none

pub record LockRefundWitness : Type 0 where
  pub redeem_intent : RedeemIntent
  pub lock_record : LockRecord
  pub lock_refund : LockRefundRecord
  pub lock_membership_proof : List Bytes
  pub consumed_exclusion_proof : List Bytes
  pub refund_exclusion_proof : List Bytes

module _ ⦃c : Crypto⦄ where
  unfoldable pub check_intent_lock_binding :
      RedeemIntent → LockRecord → Bytes → Result RedeemRejectReason (Unit {0})
  check_intent_lock_binding intent lock asset_family_id =
      let rih = redeem_intent_hash intent in
      do
        ensure (bytes_eq lock.redeem_intent_hash rih) intent_hash_mismatch
        expected_key ←
            run (tap_tweak intent.user_asset_refund_key (lock_tweak rih intent.payment_hash))
        ensure (bytes_eq lock.lock_script_key expected_key) lock_script_key_mismatch
        ensure (bytes_eq lock.asset_family_id asset_family_id) asset_family_mismatch
        ensure (lock.lock_amount_atoms == intent.amount_satusd_atoms) amount_mismatch
        ensure
            (leb min_redemption_atoms intent.amount_satusd_atoms
              && leb intent.amount_satusd_atoms max_redemption_atoms)
            amount_out_of_range
        ensure (intent.mode == mode_fast_operator) wrong_mode
        ensure (not (is_none intent.operator_id)) operator_id_missing
        needed ← ok_or (checked_add_u32 intent.btc_htlc_csv_delta refund_safety_delta) overflow
        ensure (leb needed intent.asset_lock_csv_delta) csv_too_short
        ensure (bytes_eq lock.payment_hash intent.payment_hash) payment_hash_mismatch
        ok tt

  unfoldable pub apply_lock_refund :
      StateRoot → LockRefundWitness → Result RedeemRejectReason StateRoot
  apply_lock_refund prev w = do
    check_intent_lock_binding w.redeem_intent w.lock_record prev.satusd_asset_family_id
    let lr_hash = lock_record_hash w.lock_record
    ensure (bytes_eq w.lock_refund.lock_record_hash lr_hash) intent_hash_mismatch
    ensure (verify_inclusion prev.lock_record_root lr_hash set_member w.lock_membership_proof)
        lock_not_active
    ensure (verify_exclusion prev.lock_consumed_root lr_hash w.consumed_exclusion_proof)
        lock_consumed
    ensure (verify_exclusion prev.lock_refund_root lr_hash w.refund_exclusion_proof) lock_refunded
    let expected = next_state prev TransitionType.lock_refund
    new_root ← run (root_after_update lr_hash set_member w.refund_exclusion_proof)
    ok (record expected { lock_refund_root = new_root })

  unfoldable pub verify_lock_refund :
      StateRoot → StateRoot → LockRefundWitness → Result RedeemRejectReason (Unit {0})
  verify_lock_refund prev new w = verified post_state_mismatch (apply_lock_refund prev w) new
