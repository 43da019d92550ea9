-- ===== src/Types/Positions.antt =====
-- crates/satusd-types/src/types.rs: the issuer and operator positions, the leaves of two trees.

use sats_usd.Base.{ℕ, List, ◌++◌, Bytes, Option}
use sats_usd.Encoding.{u8, u32, u64, enum_u8, fixed, opt, seq}

pub data IssuerStatus : Type 0 where
  active paused frozen exiting : IssuerStatus

unfoldable pub issuer_status_u8 : IssuerStatus → ℕ
issuer_status_u8 IssuerStatus.active = 0
issuer_status_u8 IssuerStatus.paused = 1
issuer_status_u8 IssuerStatus.frozen = 2
issuer_status_u8 IssuerStatus.exiting = 3

pub data FreezeReason : Type 0 where
  oracle_unavailable individual_cr_below_tier1 reserve_committee_vote mint_proof_mismatch
        manual_emergency_pause :
      FreezeReason

unfoldable pub freeze_reason_u8 : FreezeReason → ℕ
freeze_reason_u8 FreezeReason.oracle_unavailable = 0
freeze_reason_u8 FreezeReason.individual_cr_below_tier1 = 1
freeze_reason_u8 FreezeReason.reserve_committee_vote = 2
freeze_reason_u8 FreezeReason.mint_proof_mismatch = 3
freeze_reason_u8 FreezeReason.manual_emergency_pause = 4

pub data OperatorStatus : Type 0 where
  active suspended slashed : OperatorStatus

unfoldable pub operator_status_u8 : OperatorStatus → ℕ
operator_status_u8 OperatorStatus.active = 0
operator_status_u8 OperatorStatus.suspended = 1
operator_status_u8 OperatorStatus.slashed = 2

pub record IssuerPosition : Type 0 where
  pub issuer_id : Bytes
  pub status : IssuerStatus
  pub multisig_pubkeys : List Bytes
  pub multisig_threshold : ℕ
  pub reserve_deposits_sats : ℕ
  pub minted_satusd_atoms : ℕ
  pub pending_mint_atoms : ℕ
  pub collateral_ratio_ppm : ℕ
  pub last_deposit_txid : Option Bytes
  pub freeze_reason : Option FreezeReason
  pub registered_at_height : ℕ
  pub pending_mint_commitment : Option Bytes

unfoldable pub encode_issuer_position : IssuerPosition → Bytes
encode_issuer_position x =
    fixed x.issuer_id
    ++ (enum_u8 (issuer_status_u8 x.status)
        ++ (seq x.multisig_pubkeys fixed
            ++ (u8 x.multisig_threshold
                ++ (u64 x.reserve_deposits_sats
                    ++ (u64 x.minted_satusd_atoms
                        ++ (u64 x.pending_mint_atoms
                            ++ (u64 x.collateral_ratio_ppm
                                ++ (opt x.last_deposit_txid fixed
                                    ++ (opt x.freeze_reason (λ r. enum_u8 (freeze_reason_u8 r))
                                        ++ (u32 x.registered_at_height
                                            ++ (opt x.pending_mint_commitment fixed)))))))))))

pub record OperatorPosition : Type 0 where
  pub operator_id : Bytes
  pub status : OperatorStatus
  pub operator_pubkey : Bytes
  pub bond_sats : ℕ
  pub max_claim_sats : ℕ
  pub outstanding_claim_sats : ℕ
  pub slashed_sats : ℕ
  pub registered_at_height : ℕ

unfoldable pub encode_operator_position : OperatorPosition → Bytes
encode_operator_position x =
    fixed x.operator_id
    ++ (enum_u8 (operator_status_u8 x.status)
        ++ (fixed x.operator_pubkey
            ++ (u64 x.bond_sats
                ++ (u64 x.max_claim_sats
                    ++ (u64 x.outstanding_claim_sats
                        ++ (u64 x.slashed_sats ++ (u32 x.registered_at_height)))))))
