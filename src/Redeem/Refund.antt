-- ===== src/Redeem/Refund.antt =====
-- LOCK_REFUND: the binding of the lock, and the trees.
use sats_usd.Base.{
  ◌+◌, ◌≤◌, ◌≡◌, ◌≢◌, Bytes, true, ok, value, arith, bytes_eq→eq, Eval-cases, inl, inr,
}
use sats_usd.Crypto.{Crypto, tap_tweak}
use sats_usd.Derive.{redeem_intent_hash, lock_tweak, lock_record_hash}
use sats_usd.Smt.{verify_inclusion, verify_exclusion, root_after_update}
use sats_usd.Smt.Complete.{FieldBytes}
use sats_usd.Smt.Sound.{CollisionFree, inclusion_excludes, updated_included}
use sats_usd.Types.{RedeemIntent, LockRecord, StateRoot}
use sats_usd.Transition.{next_state}
use sats_usd.Redeem.{LockRefundWitness, check_intent_lock_binding, apply_lock_refund, set_member}

module _ ⦃c : Crypto⦄ where
  -- A lock is bound to an intent only where it commits to the intent's hash, pays to the tweaked
  -- refund key, is of the given asset family, holds the intent's amount within the limits and has
  -- its payment hash, and the intent's lock timeout exceeds the HTLC's by 24 blocks or more.
  pub check_intent_lock_binding_binds :
      (intent : RedeemIntent) (lock : LockRecord) (family : Bytes)
      → check_intent_lock_binding intent lock family ≡ ok tt
      → (lock.redeem_intent_hash ≡ redeem_intent_hash intent)
        × (tap_tweak intent.user_asset_refund_key
              (lock_tweak (redeem_intent_hash intent) intent.payment_hash)
            ≡ value lock.lock_script_key)
        × (lock.asset_family_id ≡ family)
        × (lock.lock_amount_atoms ≡ intent.amount_satusd_atoms)
        × ((100 ≤ lock.lock_amount_atoms) × (lock.lock_amount_atoms ≤ 1000000000))
        × (intent.btc_htlc_csv_delta + 24 ≤ intent.asset_lock_csv_delta)
        × (lock.payment_hash ≡ intent.payment_hash)
  unfolding check_intent_lock_binding
  check_intent_lock_binding_binds intent lock family h =
      elim (Eval-cases (
        tap_tweak intent.user_asset_refund_key
          (lock_tweak (redeem_intent_hash intent) intent.payment_hash))) [
            | inl e ↦ absurd (ground arith)
            | inr (key, e) ↦ (
              ground (arith, bytes_eq→eq lock.redeem_intent_hash (redeem_intent_hash intent)),
              ground (arith, bytes_eq→eq lock.lock_script_key key),
              ground (arith, bytes_eq→eq lock.asset_family_id family),
              ground arith,
              (ground arith, ground arith),
              ground arith,
              ground (arith, bytes_eq→eq lock.payment_hash intent.payment_hash),
            )
          ]

  -- An accepted LOCK_REFUND is of a lock of the record tree that is in neither the consumed nor
  -- the refunded tree; it writes the refunded tree and leaves the other two, the supply and the
  -- reserve.
  pub apply_lock_refund_active :
      (prev new : StateRoot) (w : LockRefundWitness)
      → apply_lock_refund prev w ≡ ok new
      → let lr_hash = lock_record_hash w.lock_record in
        (verify_inclusion prev.lock_record_root lr_hash set_member w.lock_membership_proof ≡ true)
        × (verify_exclusion prev.lock_consumed_root lr_hash w.consumed_exclusion_proof ≡ true)
        × (verify_exclusion prev.lock_refund_root lr_hash w.refund_exclusion_proof ≡ true)
        × (root_after_update lr_hash set_member w.refund_exclusion_proof
            ≡ value new.lock_refund_root)
        × (new.lock_record_root ≡ prev.lock_record_root)
        × (new.lock_consumed_root ≡ prev.lock_consumed_root)
        × (new.sat_usd_supply_atoms ≡ prev.sat_usd_supply_atoms)
        × (new.reserve_btc_sats ≡ prev.reserve_btc_sats)
  unfolding apply_lock_refund next_state
  apply_lock_refund_active prev new w h = (
    ground arith,
    ground arith,
    ground arith,
    ground arith,
    ground arith,
    ground arith,
    ground arith,
    ground arith,
  )

  -- Where Poseidon has no collision and field elements are read back from their bytes, a lock that
  -- LOCK_REFUND accepted is not refunded again, under the same lock record hash, from any state
  -- that still has the refunded tree it left, with whatever proofs.
  pub apply_lock_refund_once :
      FieldBytes c
      → CollisionFree c
      → (prev new later last : StateRoot) (w v : LockRefundWitness)
      → apply_lock_refund prev w ≡ ok new
      → later.lock_refund_root ≡ new.lock_refund_root
      → lock_record_hash v.lock_record ≡ lock_record_hash w.lock_record
      → apply_lock_refund later v ≢ ok last
  apply_lock_refund_once laws free prev new later last w v first same again second =
      let (_, _, before, written, _, _, _, _) = apply_lock_refund_active prev new w first in
      let (_, _, absent, _, _, _, _, _) = apply_lock_refund_active later last v second in
      let present =
        updated_included (lock_record_hash w.lock_record) set_member prev.lock_refund_root
          new.lock_refund_root w.refund_exclusion_proof before written in
      let excluded =
        inclusion_excludes laws free new.lock_refund_root (lock_record_hash w.lock_record)
          set_member w.refund_exclusion_proof v.refund_exclusion_proof present in
      cc
