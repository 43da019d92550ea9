-- ===== src/Types/Locks.antt =====
-- crates/satusd-types/src/types.rs: the intent, the lock and its finalize and refund records.

use sats_usd.Base.{ℕ, List, ◌++◌, Bytes, Option}
use sats_usd.Encoding.{u8, u16, u32, u64, fixed, opt, seq}

pub record OutPoint : Type 0 where
  pub txid : Bytes
  pub vout : ℕ

unfoldable pub encode_out_point : OutPoint → Bytes
encode_out_point x = fixed x.txid ++ (u32 x.vout)

pub record RedeemIntent : Type 0 where
  pub version : ℕ
  pub network : ℕ
  pub redemption_id : Bytes
  pub satusd_asset_family_id : Bytes
  pub amount_satusd_atoms : ℕ
  pub user_btc_refund_pubkey : Bytes
  pub user_btc_claim_pubkey : Bytes
  pub user_asset_refund_key : Bytes
  pub operator_id : Option Bytes
  pub mode : ℕ
  pub payment_hash : Bytes
  pub asset_lock_csv_delta : ℕ
  pub btc_htlc_csv_delta : ℕ
  pub max_operator_fee_bps : ℕ
  pub l1_anchor_height : ℕ
  pub l1_anchor_hash : Bytes
  pub expiry_height : ℕ
  pub nonce : Bytes

unfoldable pub encode_redeem_intent : RedeemIntent → Bytes
encode_redeem_intent x =
    u16 x.version
    ++ (u8 x.network
        ++ (fixed x.redemption_id
            ++ (fixed x.satusd_asset_family_id
                ++ (u64 x.amount_satusd_atoms
                    ++ (fixed x.user_btc_refund_pubkey
                        ++ (fixed x.user_btc_claim_pubkey
                            ++ (fixed x.user_asset_refund_key
                                ++ (opt x.operator_id fixed
                                    ++ (u8 x.mode
                                        ++ (fixed x.payment_hash
                                            ++ (u32 x.asset_lock_csv_delta
                                                ++ (u32 x.btc_htlc_csv_delta
                                                    ++ (u16 x.max_operator_fee_bps
                                                        ++ (u32 x.l1_anchor_height
                                                            ++ (fixed x.l1_anchor_hash
                                                            ++ (u32 x.expiry_height
                                                            ++ (fixed x.nonce)))))))))))))))))

pub record LockRecord : Type 0 where
  pub lock_record_version : ℕ
  pub redeem_intent_hash : Bytes
  pub lock_anchor_outpoint : OutPoint
  pub lock_anchor_txid : Bytes
  pub lock_script_key : Bytes
  pub lock_amount_atoms : ℕ
  pub asset_family_id : Bytes
  pub asset_lock_csv_delta : ℕ
  pub payment_hash : Bytes
  pub lineage_proof_hash : Bytes
  pub lineage_verified_by : List Bytes
  pub anchor_inclusion_height : ℕ

unfoldable pub encode_lock_record : LockRecord → Bytes
encode_lock_record x =
    u16 x.lock_record_version
    ++ (fixed x.redeem_intent_hash
        ++ (encode_out_point x.lock_anchor_outpoint
            ++ (fixed x.lock_anchor_txid
                ++ (fixed x.lock_script_key
                    ++ (u64 x.lock_amount_atoms
                        ++ (fixed x.asset_family_id
                            ++ (u32 x.asset_lock_csv_delta
                                ++ (fixed x.payment_hash
                                    ++ (fixed x.lineage_proof_hash
                                        ++ (seq x.lineage_verified_by fixed
                                            ++ (u32 x.anchor_inclusion_height)))))))))))

pub record LockFinalizeRecord : Type 0 where
  pub lock_record_hash : Bytes
  pub payment_preimage : Bytes
  pub finalize_anchor_txid : Bytes
  pub finalize_anchor_outpoint : OutPoint
  pub protocol_sink_script_key : Bytes
  pub protocol_burn_internal_key : Bytes
  pub finalized_amount_atoms : ℕ
  pub operator_id : Bytes
  pub finalize_height : ℕ
  pub universe_burn_proof_hash : Bytes

unfoldable pub encode_lock_finalize_record : LockFinalizeRecord → Bytes
encode_lock_finalize_record x =
    fixed x.lock_record_hash
    ++ (fixed x.payment_preimage
        ++ (fixed x.finalize_anchor_txid
            ++ (encode_out_point x.finalize_anchor_outpoint
                ++ (fixed x.protocol_sink_script_key
                    ++ (fixed x.protocol_burn_internal_key
                        ++ (u64 x.finalized_amount_atoms
                            ++ (fixed x.operator_id
                                ++ (u32 x.finalize_height
                                    ++ (fixed x.universe_burn_proof_hash)))))))))

pub record LockRefundRecord : Type 0 where
  pub lock_record_hash : Bytes
  pub refund_anchor_txid : Bytes
  pub refund_anchor_outpoint : OutPoint
  pub user_signature : Bytes
  pub refund_height : ℕ
  pub asset_returned_to : Bytes

unfoldable pub encode_lock_refund_record : LockRefundRecord → Bytes
encode_lock_refund_record x =
    fixed x.lock_record_hash
    ++ (fixed x.refund_anchor_txid
        ++ (encode_out_point x.refund_anchor_outpoint
            ++ (fixed x.user_signature ++ (u32 x.refund_height ++ (fixed x.asset_returned_to)))))
