-- ===== src/Types/State.antt =====
-- crates/satusd-types/src/types.rs: the transition registry and the state root.
use native.Mathlib.Decide.{ℕ_discrete}
use sats_usd.Base.{ℕ, ◌++◌, Bytes}
use sats_usd.Encoding.{u8, u16, u32, u64, fixed}

pub data TransitionType : Type 0 where
  mint_commit mint_finalize redeem_fast_lock redeem_fast_finalize lock_refund redeem_direct
        operator_register issuer_register reclaim_stale_claim finalize_claim liquidate rotate_shard
        govern settle :
      TransitionType

unfoldable pub transition_type_u8 : TransitionType → ℕ
transition_type_u8 TransitionType.mint_commit = 1
transition_type_u8 TransitionType.mint_finalize = 2
transition_type_u8 TransitionType.redeem_fast_lock = 16
transition_type_u8 TransitionType.redeem_fast_finalize = 17
transition_type_u8 TransitionType.lock_refund = 18
transition_type_u8 TransitionType.redeem_direct = 19
transition_type_u8 TransitionType.operator_register = 32
transition_type_u8 TransitionType.issuer_register = 33
transition_type_u8 TransitionType.reclaim_stale_claim = 48
transition_type_u8 TransitionType.finalize_claim = 49
transition_type_u8 TransitionType.liquidate = 64
transition_type_u8 TransitionType.rotate_shard = 80
transition_type_u8 TransitionType.govern = 96
transition_type_u8 TransitionType.settle = 112

pub record StateRoot : Type 0 where
  pub protocol_version : ℕ
  pub state_epoch : ℕ
  pub prev_state_root : Bytes
  pub transition_type : ℕ
  pub satusd_asset_family_id : Bytes
  pub sat_usd_supply_atoms : ℕ
  pub reserve_btc_sats : ℕ
  pub reserved_pending_claim_sats : ℕ
  pub collateral_ratio_ppm : ℕ
  pub emergency_tier : ℕ
  pub oracle_set_hash : Bytes
  pub oracle_set_epoch : ℕ
  pub latest_oracle_epoch_seen : ℕ
  pub latest_oracle_price_e8 : ℕ
  pub reserve_committee_hash : Bytes
  pub issuer_positions_root : Bytes
  pub operator_registry_root : Bytes
  pub lock_record_root : Bytes
  pub lock_consumed_root : Bytes
  pub lock_refund_root : Bytes
  pub redemption_nullifier_root : Bytes
  pub pending_claim_root : Bytes
  pub live_da_root : Bytes
  pub archival_da_root : Bytes
  pub l1_anchor_hash : Bytes
  pub l1_anchor_height : ℕ
  pub l1_anchor_mtp : ℕ
  pub l1_anchor_chain_time : ℕ

unfoldable pub encode_state_root : StateRoot → Bytes
encode_state_root x =
    u16 x.protocol_version
    ++ (u64 x.state_epoch
        ++ (fixed x.prev_state_root
            ++ (u8 x.transition_type
                ++ (fixed x.satusd_asset_family_id
                    ++ (u64 x.sat_usd_supply_atoms
                        ++ (u64 x.reserve_btc_sats
                            ++ (u64 x.reserved_pending_claim_sats
                                ++ (u64 x.collateral_ratio_ppm
                                    ++ (u8 x.emergency_tier
                                        ++ (fixed x.oracle_set_hash
                                            ++ (u64 x.oracle_set_epoch
                                                ++ (u64 x.latest_oracle_epoch_seen
                                                    ++ (u64 x.latest_oracle_price_e8
                                                        ++ (fixed x.reserve_committee_hash
                                                            ++ (fixed x.issuer_positions_root
                                                            ++ (fixed x.operator_registry_root
                                                            ++ (fixed x.lock_record_root
                                                            ++ (fixed x.lock_consumed_root
                                                            ++ (fixed x.lock_refund_root
                                                            ++ (fixed x.redemption_nullifier_root
                                                            ++ (fixed x.pending_claim_root
                                                            ++ (fixed x.live_da_root
                                                            ++ (fixed x.archival_da_root
                                                            ++ (fixed x.l1_anchor_hash
                                                            ++ (u32 x.l1_anchor_height
                                                            ++ (u64 x.l1_anchor_mtp
                                                            ++ (u64
                                                            x.l1_anchor_chain_time)))))))))))))))))))))))))))

-- `==` of `StateRoot`.
pub StateRoot-discrete : Discrete StateRoot
StateRoot-discrete = hlevel ℕ_discrete
