-- ===== src/Claim/Submit.antt =====
-- crates/satusd-state/src/claim.rs: `verify_reserve_claim_finalize`.
use mathlib.Core.Logic.{ite}
use sats_usd.Base.{
  ℕ, ◌+◌, ◌%◌, List, [], ◌∷◌, Bool, true, false, not, Option, none, some, Result, ok, err, ◌>>=◌,
  ◌>>◌, ensure, ok_or, run, map_err, ◌==◌, ltb, bytes_eq, checked_add, checked_sub, u64_mod,
  if◌then◌else◌,
}
use sats_usd.Crypto.{Crypto, batch_root_be}
use sats_usd.Derive.{claim_id, pending_claim_hash}
use sats_usd.Oracle.{verify_signatures, aggregate}
use sats_usd.Smt.{verify_exclusion, root_after_update}
use sats_usd.TaProof.Anchor.{Bitcoin}
use sats_usd.Transition.{state_root_hash, tier_fields}
use sats_usd.Types.{
  StateRoot, StateRoot-discrete, TransitionType, transition_type_u8, PendingClaim,
  PendingClaimStatus, ReserveClaim,
}
use sats_usd.Claim.{
  BatchRedemption, ReserveClaimWitness, ClaimRejectReason, wrong_transition_type, bad_state_linkage,
  claim_linkage_mismatch, chain_time_inconsistent, oracle, oracle_price_mismatch, empty_batch,
  reimbursement_mismatch, redemption_batch_root_mismatch, live_da_root_mismatch, claim_id_mismatch,
  duplicate_claim, post_state_mismatch, overflow, mtp_lag_offset_sec, live_da_root_for_claim,
}
use sats_usd.Claim.Batch.{Running, redeem_batch}

-- `is_empty`.
abbrev pub no_redemptions : List BatchRedemption → Bool
no_redemptions [] = true
no_redemptions (r ∷ rs) = false

-- `u64::try_from`.
abbrev pub as_u64 : ℕ → Option ℕ
as_u64 v = if ltb v u64_mod then some v else none

abbrev pub finalize_type : ℕ
finalize_type = transition_type_u8 TransitionType.redeem_fast_finalize

module _ ⦃c : Crypto⦄ where
  -- Step 1: the links between the claim and the two states.
  unfoldable pub check_linkage :
      StateRoot → StateRoot → ReserveClaim → Result ClaimRejectReason (Unit {0})
  check_linkage prev new claim = do
    ensure (new.transition_type == finalize_type) wrong_transition_type
    ensure (new.state_epoch == (prev.state_epoch + 1) % u64_mod) bad_state_linkage
    ensure (bytes_eq new.prev_state_root (state_root_hash prev)) bad_state_linkage
    ensure (claim.transition_type == finalize_type) claim_linkage_mismatch
    ensure (bytes_eq claim.prev_state_root (state_root_hash prev)) claim_linkage_mismatch
    ensure (bytes_eq claim.new_state_root (state_root_hash new)) claim_linkage_mismatch

  -- Step 2: the price of the batch.
  unfoldable pub batch_price : StateRoot → ReserveClaimWitness → Result ClaimRejectReason ℕ
  batch_price prev w = do
    let clock = w.claim.l1_anchor
    chain_time ← ok_or (checked_add prev.l1_anchor_mtp mtp_lag_offset_sec) overflow
    ensure (clock.l1_anchor_chain_time == chain_time) chain_time_inconsistent
    map_err oracle (verify_signatures w.oracle_messages)
    price ← map_err oracle (
        aggregate w.oracle_messages (record {
          expected_oracle_set_epoch = prev.oracle_set_epoch;
          expected_oracle_set_hash = prev.oracle_set_hash;
          chain_time_sec = chain_time;
          max_epoch_lag_sec = clock.max_epoch_lag_sec;
          oracle_future_tolerance_sec = clock.oracle_future_tolerance;
          signer_set = w.oracle_signer_set;
        }))
    ensure (clock.selected_oracle_price_e8 == price) oracle_price_mismatch
    ok price

  -- The running values in front of the first redemption.
  unfoldable pub start : StateRoot → Running
  start prev = record {
    consumed_root = prev.lock_consumed_root;
    nullifier_root = prev.redemption_nullifier_root;
    total_amount = 0;
    total_gross = 0;
    leaves = [];
    seen = [];
  }

  -- The roots and the id of the claim, its pending entry, and the state of step 5.
  unfoldable pub claim_state :
      StateRoot → ReserveClaimWitness → ℕ → Running → ℕ → ℕ → ℕ → Result ClaimRejectReason StateRoot
  claim_state prev w price st gross new_supply new_reserved = do
    let claim = w.claim
    ensure (bytes_eq claim.redemption_batch_root (batch_root_be st.leaves))
        redemption_batch_root_mismatch
    let computed_live_da = live_da_root_for_claim w.redemptions w.oracle_messages
    ensure (bytes_eq claim.live_da_root computed_live_da) live_da_root_mismatch
    let id = claim_id claim
    ensure (bytes_eq claim.claim_id id) claim_id_mismatch
    ensure (verify_exclusion prev.pending_claim_root id w.pending_claim_exclusion_proof)
        duplicate_claim
    let pending_claim : PendingClaim = record {
      claim_id = id;
      operator_id = claim.operator_id;
      reserved_sats = gross;
      claim_created_height = claim.l1_anchor.l1_anchor_height;
      claim_expiry_height = claim.claim_expiry_height;
      status = PendingClaimStatus.pending;
    }
    (ratio, tier) ← run (tier_fields prev.reserve_btc_sats new_supply price)
    pending_root ←
        run
          (root_after_update id (pending_claim_hash pending_claim) w.pending_claim_exclusion_proof)
    ok (record prev {
      state_epoch = (prev.state_epoch + 1) % u64_mod;
      prev_state_root = state_root_hash prev;
      transition_type = finalize_type;
      sat_usd_supply_atoms = new_supply;
      reserved_pending_claim_sats = new_reserved;
      latest_oracle_price_e8 = price;
      collateral_ratio_ppm = ratio;
      emergency_tier = tier;
      lock_consumed_root = st.consumed_root;
      redemption_nullifier_root = st.nullifier_root;
      live_da_root = computed_live_da;
      pending_claim_root = pending_root;
    })

  -- Step 4: the accounting.
  unfoldable pub settle_batch :
      StateRoot → ReserveClaimWitness → ℕ → Running → Result ClaimRejectReason StateRoot
  settle_batch prev w price st = do
    let claim = w.claim
    amount ← ok_or (as_u64 st.total_amount) overflow
    gross ← ok_or (as_u64 st.total_gross) overflow
    new_supply ← ok_or (checked_sub prev.sat_usd_supply_atoms amount) overflow
    new_reserved ← ok_or (checked_add prev.reserved_pending_claim_sats gross) overflow
    ensure (claim.reimbursement_sats == gross) reimbursement_mismatch
    claim_state prev w price st gross new_supply new_reserved

  module _ ⦃bitcoin : Bitcoin⦄ where
    unfoldable pub verify_reserve_claim_finalize :
        StateRoot → StateRoot → ReserveClaimWitness → Result ClaimRejectReason (Unit {0})
    verify_reserve_claim_finalize prev new w = do
      check_linkage prev new w.claim
      price ← batch_price prev w
      ensure (not (no_redemptions w.redemptions)) empty_batch
      st ← redeem_batch prev w.claim.operator_id w.btc_tip_height price (start prev) w.redemptions
      expected ← settle_batch prev w price st
      ite (StateRoot-discrete new expected) (ok tt) (err post_state_mismatch)
