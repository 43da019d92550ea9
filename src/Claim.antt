-- ===== src/Claim.antt =====
-- crates/satusd-state/src/claim.rs: the batched REDEEM_FAST_FINALIZE, the submit half of a reserve
-- claim. Its witness, the refusals and the Live DA root of a claim.
pub mod Burn
pub mod Batch
pub mod Submit
pub mod Round
pub mod Spent
pub mod Totals
pub mod Settled
pub mod Accounting
pub mod Refines
use sats_usd.Base.{
  ℕ, ◌^◌, ◌*◌, List, [], ◌∷◌, ◌++◌, Bytes, Option, none, some, replicate, ltb, if◌then◌else◌,
  u128_mod,
}
use sats_usd.Crypto.{Crypto}
use sats_usd.Da.{Section, new_bundle, live_da_root}
use sats_usd.Encoding.{seq_items, var_bytes}
use sats_usd.Oracle.{OracleRejectReason}
use sats_usd.Redeem.{RedeemRejectReason}
use sats_usd.Spv.{SpvError}
use sats_usd.Types.{
  RedeemIntent, LockRecord, LockFinalizeRecord, BtcPayoutConfirmation, ReserveClaim, OracleMessage,
  encode_redeem_intent, encode_lock_record, encode_lock_finalize_record,
  encode_btc_payout_confirmation, encode_oracle_message,
}

abbrev pub mtp_lag_offset_sec : ℕ
mtp_lag_offset_sec = 3600

abbrev pub btc_claim_confirmation_depth : ℕ
btc_claim_confirmation_depth = 6

pub record BatchRedemption : Type 0 where
  pub redeem_intent : RedeemIntent
  pub lock_record : LockRecord
  pub lock_finalize : LockFinalizeRecord
  pub payout_confirmation : BtcPayoutConfirmation
  pub lock_membership_proof : List Bytes
  pub consumed_exclusion_proof : List Bytes
  pub refund_exclusion_proof : List Bytes
  pub nullifier_exclusion_proof : List Bytes
  pub burn_proof : Bytes

pub record ReserveClaimWitness : Type 0 where
  pub claim : ReserveClaim
  pub redemptions : List BatchRedemption
  pub oracle_messages : List OracleMessage
  pub oracle_signer_set : List Bytes
  pub pending_claim_exclusion_proof : List Bytes
  pub btc_tip_height : ℕ

pub data ClaimRejectReason : Type 0 where
  wrong_transition_type bad_state_linkage claim_linkage_mismatch : ClaimRejectReason
  chain_time_inconsistent : ClaimRejectReason
  oracle : OracleRejectReason → ClaimRejectReason
  oracle_price_mismatch : ClaimRejectReason
  spv : SpvError → ClaimRejectReason
  redeem : RedeemRejectReason → ClaimRejectReason
  empty_batch duplicate_in_batch operator_mismatch preimage_not_revealed : ClaimRejectReason
  payout_too_low reimbursement_mismatch redemption_batch_root_mismatch : ClaimRejectReason
  live_da_root_mismatch claim_id_mismatch duplicate_claim post_state_mismatch : ClaimRejectReason
  overflow burn_proof_malformed burn_proof_invalid burn_proof_script_key_mismatch :
      ClaimRejectReason
  burn_proof_amount_mismatch burn_proof_family_mismatch burn_proof_anchor_mismatch :
      ClaimRejectReason
  burn_proof_hash_mismatch : ClaimRejectReason

-- A checked operation of `u128`, by its exact result.
abbrev pub checked_u128 : ℕ → Option ℕ
checked_u128 v = if ltb v u128_mod then some v else none

module _ ⦃c : Crypto⦄ where
  unfoldable pub live_da_root_for_claim : List BatchRedemption → List OracleMessage → Bytes
  live_da_root_for_claim redemptions oracle_messages =
      let sections : List Section =
        record {
          id = 1;
          content = seq_items redemptions (λ r. encode_redeem_intent r.redeem_intent);
        }
        ∷ record { id = 2; content = seq_items redemptions (λ r. encode_lock_record r.lock_record) }
        ∷ record {
          id = 5;
          content =
              seq_items redemptions (λ r. encode_btc_payout_confirmation r.payout_confirmation);
        }
        ∷ record {
          id = 6;
          content = seq_items redemptions (λ r. encode_lock_finalize_record r.lock_finalize);
        }
        ∷ record { id = 7; content = seq_items redemptions (λ r. var_bytes r.burn_proof) }
        ∷ record { id = 8; content = seq_items oracle_messages encode_oracle_message }
        ∷ [] in
      live_da_root (new_bundle (replicate 32 0) 0 sections)
