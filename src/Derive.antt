-- ===== src/Derive.antt =====
-- crates/satusd-types/src/derive.rs: the protocol's hashes and commitments.
mod Order
unfoldable pub use Order.{bytes_leb, insert_sorted, sort_unstable}
use sats_usd.Base.{ℕ, List, [], ◌∷◌, ◌++◌, Bytes}
use sats_usd.Crypto.{Crypto, sha256, tagged_hash}
use sats_usd.Domain
use sats_usd.Encoding.{u8, u32, u64, fixed, seq}
use sats_usd.Types.{
  OutPoint, RedeemIntent, LockRecord, ReserveClaim, IssuerPosition, PendingClaim, OperatorPosition,
  encode_redeem_intent, encode_lock_record, encode_for_claim_id, encode_issuer_position,
  encode_pending_claim, encode_operator_position,
}

module _ ⦃c : Crypto⦄ where
  unfoldable pub asset_family_id : Bytes → Bytes → ℕ → Bytes
  asset_family_id genesis_asset_id group_key chain_id =
      sha256 (Domain.asset_family ∷ genesis_asset_id ∷ group_key ∷ (chain_id ∷ []) ∷ [])

  unfoldable pub lineage_proof_hash : Bytes → Bytes
  lineage_proof_hash proof_file_bytes = tagged_hash Domain.lineage_proof proof_file_bytes

  unfoldable pub redeem_intent_hash : RedeemIntent → Bytes
  redeem_intent_hash intent = tagged_hash Domain.redeem_intent (encode_redeem_intent intent)

  unfoldable pub lock_tweak : Bytes → Bytes → Bytes
  lock_tweak intent_hash payment_hash = sha256 (Domain.lock_tweak ∷ intent_hash ∷ payment_hash ∷ [])

  unfoldable pub redemption_nullifier : OutPoint → Bytes → Bytes → Bytes
  redemption_nullifier outpoint lock_script_key intent_hash = sha256 (
      Domain.redemption_nullifier
      ∷ outpoint.txid
      ∷ u32 outpoint.vout
      ∷ lock_script_key
      ∷ intent_hash
      ∷ [])

  unfoldable pub claim_id : ReserveClaim → Bytes
  claim_id claim = sha256 (Domain.claim_id ∷ encode_for_claim_id claim ∷ [])

  unfoldable pub issuer_position_hash : IssuerPosition → Bytes
  issuer_position_hash p = tagged_hash Domain.issuer_position (encode_issuer_position p)

  unfoldable pub pending_claim_hash : PendingClaim → Bytes
  pending_claim_hash p = tagged_hash Domain.pending_claim (encode_pending_claim p)

  unfoldable pub lock_record_hash : LockRecord → Bytes
  lock_record_hash r = tagged_hash Domain.lock_record (encode_lock_record r)

  unfoldable pub operator_position_hash : OperatorPosition → Bytes
  operator_position_hash p = tagged_hash Domain.operator_position (encode_operator_position p)

  unfoldable pub oracle_set_hash : ℕ → List Bytes → Bytes
  oracle_set_hash oracle_set_epoch signer_pubkeys =
      tagged_hash Domain.oracle_set
        (u64 oracle_set_epoch ++ seq (sort_unstable signer_pubkeys) fixed)

  unfoldable pub reserve_committee_hash : ℕ → List Bytes → Bytes
  reserve_committee_hash threshold committee_pubkeys =
      tagged_hash Domain.reserve_committee
        (u8 threshold ++ seq (sort_unstable committee_pubkeys) fixed)

  unfoldable pub mint_request_sighash : Bytes → ℕ → ℕ → Bytes → Bytes → Bytes
  mint_request_sighash issuer_id requested_mint_atoms deposit_sats deposit_txid metadata =
      tagged_hash Domain.mint_request (
        fixed issuer_id
        ++ (u64 requested_mint_atoms
            ++ (u64 deposit_sats ++ (fixed deposit_txid ++ fixed metadata))))

  unfoldable pub mint_commitment : ℕ → Bytes → Bytes → Bytes
  mint_commitment requested_mint_atoms metadata deposit_txid =
      tagged_hash Domain.mint_request
        (u64 requested_mint_atoms ++ (fixed metadata ++ fixed deposit_txid))
