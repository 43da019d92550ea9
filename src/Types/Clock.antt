-- ===== src/Types/Clock.antt =====
-- crates/satusd-types/src/types.rs: the claim clock and the oracle message.

use sats_usd.Base.{ℕ, List, ◌++◌, Bytes}
use sats_usd.Encoding.{u32, u64, fixed, seq_items}

pub record ClaimClock : Type 0 where
  pub l1_anchor_height : ℕ
  pub l1_anchor_hash : Bytes
  pub l1_anchor_mtp : ℕ
  pub l1_anchor_chain_time : ℕ
  pub recent_header_chain : List Bytes
  pub oracle_epoch : ℕ
  pub selected_oracle_price_e8 : ℕ
  pub max_epoch_lag_sec : ℕ
  pub oracle_future_tolerance : ℕ

unfoldable pub encode_claim_clock : ClaimClock → Bytes
encode_claim_clock x =
    u32 x.l1_anchor_height
    ++ (fixed x.l1_anchor_hash
        ++ (u64 x.l1_anchor_mtp
            ++ (u64 x.l1_anchor_chain_time
                ++ (seq_items x.recent_header_chain fixed
                    ++ (u64 x.oracle_epoch
                        ++ (u64 x.selected_oracle_price_e8
                            ++ (u32 x.max_epoch_lag_sec ++ (u32 x.oracle_future_tolerance))))))))

pub record OracleMessage : Type 0 where
  pub domain : Bytes
  pub oracle_id : Bytes
  pub oracle_set_epoch : ℕ
  pub price_epoch : ℕ
  pub timestamp_ms : ℕ
  pub pair : Bytes
  pub price_e8 : ℕ
  pub source_commitment : Bytes
  pub signer_pubkey : Bytes
  pub signature : Bytes

unfoldable pub encode_oracle_message : OracleMessage → Bytes
encode_oracle_message x =
    fixed x.domain
    ++ (fixed x.oracle_id
        ++ (u64 x.oracle_set_epoch
            ++ (u64 x.price_epoch
                ++ (u64 x.timestamp_ms
                    ++ (fixed x.pair
                        ++ (u64 x.price_e8
                            ++ (fixed x.source_commitment
                                ++ (fixed x.signer_pubkey ++ (fixed x.signature)))))))))
