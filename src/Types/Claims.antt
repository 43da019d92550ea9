-- ===== src/Types/Claims.antt =====
-- crates/satusd-types/src/types.rs: the redemption record, the reserve claim and the pending claim.

use sats_usd.Base.{ℕ, ◌++◌, Bytes}
use sats_usd.Encoding.{u8, u32, u64, enum_u8, fixed}
use sats_usd.Types.Clock.{ClaimClock, encode_claim_clock}

pub data PendingClaimStatus : Type 0 where
  pending finalized challenged expired reclaimed : PendingClaimStatus

unfoldable pub pending_claim_status_u8 : PendingClaimStatus → ℕ
pending_claim_status_u8 PendingClaimStatus.pending = 0
pending_claim_status_u8 PendingClaimStatus.finalized = 1
pending_claim_status_u8 PendingClaimStatus.challenged = 2
pending_claim_status_u8 PendingClaimStatus.expired = 3
pending_claim_status_u8 PendingClaimStatus.reclaimed = 4

pub record RedemptionRecord : Type 0 where
  pub redeem_intent_hash : Bytes
  pub lock_record_hash : Bytes
  pub btc_htlc_record_hash : Bytes
  pub btc_payout_confirmation_hash : Bytes
  pub lock_finalize_hash : Bytes
  pub selected_oracle_epoch : ℕ
  pub selected_price_e8 : ℕ
  pub gross_btc_sats : ℕ
  pub operator_fee_sats : ℕ
  pub user_payout_sats : ℕ

unfoldable pub encode_redemption_record : RedemptionRecord → Bytes
encode_redemption_record x =
    fixed x.redeem_intent_hash
    ++ (fixed x.lock_record_hash
        ++ (fixed x.btc_htlc_record_hash
            ++ (fixed x.btc_payout_confirmation_hash
                ++ (fixed x.lock_finalize_hash
                    ++ (u64 x.selected_oracle_epoch
                        ++ (u64 x.selected_price_e8
                            ++ (u64 x.gross_btc_sats
                                ++ (u64 x.operator_fee_sats ++ (u64 x.user_payout_sats)))))))))

pub record ReserveClaim : Type 0 where
  pub claim_id : Bytes
  pub transition_type : ℕ
  pub operator_id : Bytes
  pub prev_state_root : Bytes
  pub new_state_root : Bytes
  pub redemption_batch_root : Bytes
  pub oracle_batch_root : Bytes
  pub lock_batch_root : Bytes
  pub payout_batch_root : Bytes
  pub confirmation_batch_root : Bytes
  pub finalize_batch_root : Bytes
  pub burn_proof_batch_root : Bytes
  pub lineage_proof_batch_root : Bytes
  pub live_da_root : Bytes
  pub archival_da_root : Bytes
  pub l1_anchor : ClaimClock
  pub reserve_shard_id : ℕ
  pub reimbursement_sats : ℕ
  pub proof_commitment : Bytes
  pub claim_expiry_height : ℕ
  pub operator_signature : Bytes

unfoldable pub encode_for_claim_id : ReserveClaim → Bytes
encode_for_claim_id x =
    u8 x.transition_type
    ++ (fixed x.operator_id
        ++ (fixed x.prev_state_root
            ++ (fixed x.redemption_batch_root
                ++ (fixed x.oracle_batch_root
                    ++ (fixed x.lock_batch_root
                        ++ (fixed x.payout_batch_root
                            ++ (fixed x.confirmation_batch_root
                                ++ (fixed x.finalize_batch_root
                                    ++ (fixed x.burn_proof_batch_root
                                        ++ (fixed x.lineage_proof_batch_root
                                            ++ (fixed x.live_da_root
                                                ++ (fixed x.archival_da_root
                                                    ++ (encode_claim_clock x.l1_anchor
                                                        ++ (u64 x.reserve_shard_id
                                                            ++ (u64 x.reimbursement_sats
                                                            ++ (fixed x.proof_commitment
                                                            ++ (u32
                                                            x.claim_expiry_height)))))))))))))))))

unfoldable pub encode_reserve_claim : ReserveClaim → Bytes
encode_reserve_claim x =
    fixed x.claim_id
    ++ (fixed x.new_state_root ++ (encode_for_claim_id x ++ (fixed x.operator_signature)))

pub record PendingClaim : Type 0 where
  pub claim_id : Bytes
  pub operator_id : Bytes
  pub reserved_sats : ℕ
  pub claim_created_height : ℕ
  pub claim_expiry_height : ℕ
  pub status : PendingClaimStatus

unfoldable pub encode_pending_claim : PendingClaim → Bytes
encode_pending_claim x =
    fixed x.claim_id
    ++ (fixed x.operator_id
        ++ (u64 x.reserved_sats
            ++ (u32 x.claim_created_height
                ++ (u32 x.claim_expiry_height ++ (enum_u8 (pending_claim_status_u8 x.status))))))
