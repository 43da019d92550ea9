-- ===== src/Types/Payouts.antt =====
-- crates/satusd-types/src/types.rs: the Bitcoin payout and deposit records and their SPV proofs.

use sats_usd.Base.{ℕ, List, ◌++◌, Bytes}
use sats_usd.Encoding.{u32, u64, fixed, var_bytes, seq}

pub record BtcHtlcPayoutRecord : Type 0 where
  pub operator_id : Bytes
  pub redeem_intent_hash : Bytes
  pub btc_htlc_txid : Bytes
  pub btc_htlc_vout : ℕ
  pub payment_hash : Bytes
  pub user_claim_pubkey : Bytes
  pub operator_refund_pubkey : Bytes
  pub payout_sats : ℕ
  pub btc_csv_delta : ℕ
  pub htlc_inclusion_height : ℕ
  pub htlc_inclusion_block_hash : Bytes
  pub claim_spend_txid : Bytes
  pub revealed_preimage : Bytes
  pub claim_inclusion_height : ℕ
  pub claim_inclusion_block_hash : Bytes
  pub confirmation_depth : ℕ

unfoldable pub encode_btc_htlc_payout_record : BtcHtlcPayoutRecord → Bytes
encode_btc_htlc_payout_record x =
    fixed x.operator_id
    ++ (fixed x.redeem_intent_hash
        ++ (fixed x.btc_htlc_txid
            ++ (u32 x.btc_htlc_vout
                ++ (fixed x.payment_hash
                    ++ (fixed x.user_claim_pubkey
                        ++ (fixed x.operator_refund_pubkey
                            ++ (u64 x.payout_sats
                                ++ (u32 x.btc_csv_delta
                                    ++ (u32 x.htlc_inclusion_height
                                        ++ (fixed x.htlc_inclusion_block_hash
                                            ++ (fixed x.claim_spend_txid
                                                ++ (fixed x.revealed_preimage
                                                    ++ (u32 x.claim_inclusion_height
                                                        ++ (fixed x.claim_inclusion_block_hash
                                                            ++ (u32
                                                            x.confirmation_depth)))))))))))))))

pub record BtcDepositConfirmation : Type 0 where
  pub deposit_tx_legacy : Bytes
  pub inclusion_header : Bytes
  pub inclusion_block_hash : Bytes
  pub inclusion_block_height : ℕ
  pub inclusion_merkle_proof : List Bytes
  pub tx_index : ℕ
  pub confirmation_headers : List Bytes

pub record BtcPayoutConfirmation : Type 0 where
  pub btc_htlc_txid : Bytes
  pub btc_htlc_vout : ℕ
  pub htlc_output_value_sats : ℕ
  pub htlc_output_script : Bytes
  pub htlc_inclusion_block_hash : Bytes
  pub htlc_inclusion_block_height : ℕ
  pub htlc_inclusion_merkle_proof : List Bytes
  pub claim_spend_txid : Bytes
  pub claim_spend_input_index : ℕ
  pub claim_spend_witness : List Bytes
  pub claim_tx_legacy : Bytes
  pub revealed_preimage : Bytes
  pub claim_inclusion_block_hash : Bytes
  pub claim_inclusion_block_height : ℕ
  pub claim_inclusion_merkle_proof : List Bytes
  pub confirmation_headers : List Bytes
  pub htlc_tx_index : ℕ
  pub claim_tx_index : ℕ
  pub htlc_inclusion_header : Bytes
  pub claim_inclusion_header : Bytes

unfoldable pub encode_btc_payout_confirmation : BtcPayoutConfirmation → Bytes
encode_btc_payout_confirmation x =
    fixed x.btc_htlc_txid
    ++ (u32 x.btc_htlc_vout
        ++ (u64 x.htlc_output_value_sats
            ++ (var_bytes x.htlc_output_script
                ++ (fixed x.htlc_inclusion_block_hash
                    ++ (u32 x.htlc_inclusion_block_height
                        ++ (seq x.htlc_inclusion_merkle_proof fixed
                            ++ (fixed x.claim_spend_txid
                                ++ (u32 x.claim_spend_input_index
                                    ++ (seq x.claim_spend_witness var_bytes
                                        ++ (var_bytes x.claim_tx_legacy
                                            ++ (fixed x.revealed_preimage
                                                ++ (fixed x.claim_inclusion_block_hash
                                                    ++ (u32 x.claim_inclusion_block_height
                                                        ++ (seq x.claim_inclusion_merkle_proof fixed
                                                            ++ (seq x.confirmation_headers fixed
                                                            ++ (u32 x.htlc_tx_index
                                                            ++ (u32 x.claim_tx_index
                                                            ++ (fixed x.htlc_inclusion_header
                                                            ++ (fixed
                                                            x.claim_inclusion_header)))))))))))))))))))
