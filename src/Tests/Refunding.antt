-- ===== src/Tests/Refunding.antt =====
-- A lock refunded.
use sats_usd.Base.{◌≡◌, ◌≢◌, refl, [], Bytes, ok, some, value, panicked, replicate}
use sats_usd.Crypto.{Crypto, tap_tweak}
use sats_usd.Derive.{redeem_intent_hash, lock_tweak, lock_record_hash}
use sats_usd.Smt.{fold_to_root, leaf_hash}
use sats_usd.Types.{StateRoot, RedeemIntent, LockRecord, LockRefundRecord, OutPoint}
use sats_usd.Redeem.{LockRefundWitness, check_intent_lock_binding, apply_lock_refund, set_member}
use sats_usd.Redeem.Refund.{apply_lock_refund_active, apply_lock_refund_once}
use sats_usd.Tests.Registering.{key, siblings, root_over, genesis, state_of}
use sats_usd.Tests.Toy.{toy, toy_field, toy_free}

abbrev intent : RedeemIntent
intent = record {
  version = 1;
  network = 1;
  redemption_id = key 1;
  satusd_asset_family_id = key 8;
  amount_satusd_atoms = 5000;
  user_btc_refund_pubkey = key 2;
  user_btc_claim_pubkey = key 3;
  user_asset_refund_key = key 4;
  operator_id = some (key 5);
  mode = 0;
  payment_hash = key 6;
  asset_lock_csv_delta = 168;
  btc_htlc_csv_delta = 144;
  max_operator_fee_bps = 50;
  l1_anchor_height = 100;
  l1_anchor_hash = key 7;
  expiry_height = 500;
  nonce = key 9;
}

abbrev tweaked : Bytes
tweaked =
    elim (tap_tweak ⦃c = toy⦄ (key 4)
      (lock_tweak ⦃c = toy⦄ (redeem_intent_hash ⦃c = toy⦄ intent) (key 6))) [
        | value k ↦ k
        | panicked ↦ []
      ]

abbrev lock : LockRecord
lock = record {
  lock_record_version = 1;
  redeem_intent_hash = redeem_intent_hash ⦃c = toy⦄ intent;
  lock_anchor_outpoint = record { txid = key 10; vout = 0 };
  lock_anchor_txid = key 10;
  lock_script_key = tweaked;
  lock_amount_atoms = 5000;
  asset_family_id = key 8;
  asset_lock_csv_delta = 168;
  payment_hash = key 6;
  lineage_proof_hash = key 11;
  lineage_verified_by = [];
  anchor_inclusion_height = 101;
}

abbrev lr_hash : Bytes
lr_hash = lock_record_hash ⦃c = toy⦄ lock

abbrev witness : LockRefundRecord → LockRefundWitness
witness refund = record {
  redeem_intent = intent;
  lock_record = lock;
  lock_refund = refund;
  lock_membership_proof = siblings;
  consumed_exclusion_proof = siblings;
  refund_exclusion_proof = siblings;
}

abbrev refund : LockRefundRecord
refund = record {
  lock_record_hash = lr_hash;
  refund_anchor_txid = key 12;
  refund_anchor_outpoint = record { txid = key 10; vout = 0 };
  user_signature = key 13;
  refund_height = 300;
  asset_returned_to = key 4;
}

abbrev locked : StateRoot
locked = record genesis {
  lock_record_root = root_over lr_hash (leaf_hash ⦃c = toy⦄ lr_hash set_member);
  lock_consumed_root = root_over lr_hash [];
  lock_refund_root = root_over lr_hash [];
}

abbrev refunded : StateRoot
refunded = state_of (apply_lock_refund ⦃c = toy⦄ locked (witness refund))

lock_binds : check_intent_lock_binding ⦃c = toy⦄ intent lock (key 8) ≡ ok tt
unfolding check_intent_lock_binding redeem_intent_hash lock_tweak lock_record_hash tap_tweak
    sats_usd.Crypto.tap_tweak_data sats_usd.Crypto.bip341_hash sats_usd.Crypto.tagged_hash
    sats_usd.Crypto.sha256 mathlib.Core.List.flatten sats_usd.Types.encode_redeem_intent
    sats_usd.Types.encode_lock_record sats_usd.Types.encode_out_point sats_usd.Encoding.be_bytes
    sats_usd.Encoding.u16 sats_usd.Encoding.u8 sats_usd.Encoding.u32 sats_usd.Encoding.fixed
    sats_usd.Encoding.u64 sats_usd.Encoding.opt sats_usd.Encoding.seq sats_usd.Encoding.seq_items
lock_binds = refl

lock_refunds : apply_lock_refund ⦃c = toy⦄ locked (witness refund) ≡ ok refunded
unfolding check_intent_lock_binding redeem_intent_hash lock_tweak lock_record_hash tap_tweak
    sats_usd.Crypto.tap_tweak_data sats_usd.Crypto.bip341_hash sats_usd.Crypto.tagged_hash
    sats_usd.Crypto.sha256 mathlib.Core.List.flatten sats_usd.Types.encode_redeem_intent
    sats_usd.Types.encode_lock_record sats_usd.Types.encode_out_point sats_usd.Encoding.be_bytes
    sats_usd.Encoding.u16 sats_usd.Encoding.u8 sats_usd.Encoding.u32 sats_usd.Encoding.fixed
    sats_usd.Encoding.u64 sats_usd.Encoding.opt sats_usd.Encoding.seq sats_usd.Encoding.seq_items
    apply_lock_refund sats_usd.Smt.verify_inclusion sats_usd.Smt.verify_exclusion
    sats_usd.Smt.root_after_update sats_usd.Smt.folds_to fold_to_root sats_usd.Smt.fold_levels
    sats_usd.Smt.fold_step leaf_hash sats_usd.Smt.bit sats_usd.Crypto.fr_to_be_bytes
    sats_usd.Crypto.poseidon2 sats_usd.Crypto.fr_from_be_bytes sats_usd.Crypto.hash_bytes
    sats_usd.Crypto.fold_limbs sats_usd.Crypto.chunks_31 sats_usd.Transition.next_state
lock_refunds = refl

apply_lock_refund_active_example : refunded.lock_consumed_root ≡ locked.lock_consumed_root
apply_lock_refund_active_example =
    (apply_lock_refund_active ⦃c = toy⦄ locked refunded (witness refund) lock_refunds).5

-- A second refund of the lock, with other proofs.
abbrev second : LockRefundWitness
second = record (witness refund) { refund_exclusion_proof = replicate 256 (key 1) }

apply_lock_refund_once_example : apply_lock_refund ⦃c = toy⦄ refunded second ≢ ok genesis
apply_lock_refund_once_example =
    apply_lock_refund_once ⦃c = toy⦄ toy_field toy_free locked refunded refunded genesis
      (witness refund) second lock_refunds refl refl
