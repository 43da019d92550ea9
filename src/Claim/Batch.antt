-- ===== src/Claim/Batch.antt =====
-- crates/satusd-state/src/claim.rs: the loop of `verify_reserve_claim_finalize` over the redemptions.
use sats_usd.Base.{
  ℕ, ◌+◌, ◌-◌, ◌*◌, ◌/◌, ◌%◌, ◌^◌, List, [], ◌∷◌, ◌++◌, Bool, false, not, Bytes, Option, none, some,
  Result, ok, panic, ◌>>=◌, ◌>>◌, ensure, ok_or, run, map_err, ◌==◌, leb, bytes_eq, contains,
  u128_mod, if◌then◌else◌,
}
use sats_usd.Crypto.{Crypto, sha256, protocol_sink_script_key, protocol_burn_internal_key}
use sats_usd.Derive.{lock_record_hash, redemption_nullifier}
use sats_usd.Redeem.{
  lock_not_active, lock_consumed, lock_refunded, nullifier_used, preimage_mismatch,
  burn_sink_mismatch, burn_internal_key_mismatch, finalize_amount_mismatch,
  finalize_operator_mismatch, set_member, check_intent_lock_binding,
}
use sats_usd.Smt.{verify_inclusion, verify_exclusion, root_after_update}
use sats_usd.Spv.{verify_payout_confirmation}
use sats_usd.TaProof.Anchor.{Bitcoin}
use sats_usd.Types.{StateRoot}
use sats_usd.Claim.{
  BatchRedemption, ClaimRejectReason, overflow, operator_mismatch, duplicate_in_batch,
  preimage_not_revealed, payout_too_low, redeem, spv, checked_u128, btc_claim_confirmation_depth,
}
use sats_usd.Claim.Burn.{check_burn_proof_binding}

-- What the loop carries from one redemption to the next.
pub record Running : Type 0 where
  pub consumed_root : Bytes
  pub nullifier_root : Bytes
  pub total_amount : ℕ
  pub total_gross : ℕ
  pub leaves : List Bytes
  pub seen : List Bytes

unfoldable pub is_operator : Option Bytes → Bytes → Bool
is_operator none id = false
is_operator (some x) id = bytes_eq x id

-- `amount * 10^14 / price`: a division by zero panics.
unfoldable pub gross_sats : ℕ → ℕ → Result ClaimRejectReason ℕ
gross_sats amount price = do
  scaled ← ok_or (checked_u128 (amount * 10 ^ 14)) overflow
  if price == 0 then panic else ok (scaled / price)

unfoldable pub max_fee : ℕ → ℕ → Result ClaimRejectReason ℕ
max_fee gross bps = do scaled ← ok_or (checked_u128 (gross * bps)) overflow; ok (scaled / 10000)

-- `gross - max_fee`, which wraps.
abbrev pub least_payout : ℕ → ℕ → ℕ
least_payout gross fee = (gross + (u128_mod - fee)) % u128_mod

module _ ⦃c : Crypto⦄ where
  -- The `lr_hash` and the `nf` of a redemption.
  abbrev pub lock_hash : BatchRedemption → Bytes
  lock_hash r = lock_record_hash r.lock_record

  abbrev pub nullifier : BatchRedemption → Bytes
  nullifier r =
      let lock = r.lock_record in
      redemption_nullifier lock.lock_anchor_outpoint lock.lock_script_key lock.redeem_intent_hash

  -- The lock is active: in the record tree, in neither the consumed nor the refunded tree, its
  -- nullifier unused.
  unfoldable pub check_active :
      StateRoot → Running → BatchRedemption → Bytes → Bytes → Result ClaimRejectReason (Unit {0})
  check_active prev st r lr_hash nf = do
    ensure (verify_inclusion prev.lock_record_root lr_hash set_member r.lock_membership_proof)
        (redeem lock_not_active)
    ensure (verify_exclusion st.consumed_root lr_hash r.consumed_exclusion_proof)
        (redeem lock_consumed)
    ensure (verify_exclusion prev.lock_refund_root lr_hash r.refund_exclusion_proof)
        (redeem lock_refunded)
    ensure (verify_exclusion st.nullifier_root nf r.nullifier_exclusion_proof)
        (redeem nullifier_used)

  -- The preimage, the payout and the keys of the burn sink.
  unfoldable pub check_paid : StateRoot → BatchRedemption → ℕ → Result ClaimRejectReason (Unit {0})
  check_paid prev r tip_height = do
    ensure (bytes_eq (sha256 (r.lock_finalize.payment_preimage ∷ [])) r.redeem_intent.payment_hash)
        (redeem preimage_mismatch)
    ensure (bytes_eq r.payout_confirmation.revealed_preimage r.lock_finalize.payment_preimage)
        preimage_not_revealed
    map_err spv (
        verify_payout_confirmation r.payout_confirmation r.redeem_intent.payment_hash
          btc_claim_confirmation_depth tip_height)
    sink ← run (protocol_sink_script_key prev.satusd_asset_family_id)
    ensure (bytes_eq r.lock_finalize.protocol_sink_script_key sink) (redeem burn_sink_mismatch)
    internal ← run (protocol_burn_internal_key prev.satusd_asset_family_id)
    ensure (bytes_eq r.lock_finalize.protocol_burn_internal_key internal)
        (redeem burn_internal_key_mismatch)

  -- The end of a round: the payout, the totals and the running roots.
  unfoldable pub advance : ℕ → Running → BatchRedemption → Result ClaimRejectReason Running
  advance price st r = do
    gross ← gross_sats r.lock_record.lock_amount_atoms price
    fee ← max_fee gross r.redeem_intent.max_operator_fee_bps
    ensure (leb (least_payout gross fee) r.payout_confirmation.htlc_output_value_sats)
        payout_too_low
    amount ← ok_or (checked_u128 (st.total_amount + r.redeem_intent.amount_satusd_atoms)) overflow
    total_gross ← ok_or (checked_u128 (st.total_gross + gross)) overflow
    consumed ← run (root_after_update (lock_hash r) set_member r.consumed_exclusion_proof)
    nullified ← run (root_after_update (nullifier r) set_member r.nullifier_exclusion_proof)
    ok (record {
      consumed_root = consumed;
      nullifier_root = nullified;
      total_amount = amount;
      total_gross = total_gross;
      leaves = st.leaves ++ (lock_hash r ∷ []);
      seen = st.seen ++ (lock_hash r ∷ []);
    })

  module _ ⦃bitcoin : Bitcoin⦄ where
    -- One round of the loop.
    unfoldable pub redeem_one :
        StateRoot → Bytes → ℕ → ℕ → Running → BatchRedemption → Result ClaimRejectReason Running
    redeem_one prev operator_id tip_height price st r =
        let lock = r.lock_record in
        let lr_hash = lock_hash r in
        let nf = nullifier r in
        do
          map_err redeem
              (check_intent_lock_binding r.redeem_intent lock prev.satusd_asset_family_id)
          ensure (is_operator r.redeem_intent.operator_id operator_id) operator_mismatch
          ensure (not (contains st.seen lr_hash)) duplicate_in_batch
          check_active prev st r lr_hash nf
          check_paid prev r tip_height
          check_burn_proof_binding r.burn_proof r.lock_finalize prev.satusd_asset_family_id
              r.redeem_intent.network
          ensure (r.lock_finalize.finalized_amount_atoms == lock.lock_amount_atoms)
              (redeem finalize_amount_mismatch)
          ensure (bytes_eq r.lock_finalize.operator_id operator_id)
              (redeem finalize_operator_mismatch)
          advance price st r

    unfoldable pub redeem_batch :
        StateRoot
        → Bytes
        → ℕ
        → ℕ
        → Running
        → List BatchRedemption
        → Result ClaimRejectReason Running
    redeem_batch prev operator_id tip_height price st [] = ok st
    redeem_batch prev operator_id tip_height price st (r ∷ rs) = do
      next ← redeem_one prev operator_id tip_height price st r
      redeem_batch prev operator_id tip_height price next rs
