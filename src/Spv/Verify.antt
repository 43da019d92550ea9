-- ===== src/Spv/Verify.antt =====
-- The two verifiers.
use sats_usd.Base.{
  ℕ, ◌+◌, ◌-◌, ◌%◌, ◌^◌, List, [], ◌∷◌, Bytes, ◌&&◌, Option, none, some, Result, ok, ◌>>=◌, ◌>>◌,
  ensure, ok_or, run, length, bytes_eq, leb, ltb, ◌==◌, if◌then◌else◌,
}
use sats_usd.Crypto.{Crypto, sha256}
use sats_usd.Types.{BtcDepositConfirmation, BtcPayoutConfirmation}
use sats_usd.Spv.Tx.{reserve_p2wsh_spk, legacy_tx_outputs, legacy_tx_input_outpoint}
use sats_usd.Spv.Chain.{
  dsha256, block_hash, merkle_root_from_proof, prev_block_hash, merkle_root_field, pow_ok,
}

pub data DepositSpvError : Type 0 where
  malformed_tx txid_mismatch deposit_not_to_reserve deposit_amount_mismatch : DepositSpvError
  inclusion_header_mismatch inclusion_merkle_invalid : DepositSpvError
  confirmation_depth_insufficient header_chain_broken header_pow_invalid : DepositSpvError

pub data SpvError : Type 0 where
  preimage_hash_mismatch htlc_header_mismatch claim_header_mismatch : SpvError
  htlc_merkle_invalid claim_merkle_invalid claim_before_htlc : SpvError
  insufficient_confirmations header_chain_broken header_pow_invalid : SpvError
  not_buried_deep_enough malformed_claim_tx claim_does_not_spend_htlc : SpvError

-- `outs.iter().find(|(_, spk)| spk == reserve_spk)`.
unfoldable pub find_output : Bytes → List (ℕ × Bytes) → Option ℕ
find_output spk [] = none
find_output spk ((paid, s) ∷ outs) = if bytes_eq s spk then some paid else find_output spk outs

module _ ⦃c : Crypto⦄ where
  -- The loop over the confirmation headers of a deposit.
  unfoldable pub deposit_headers : Bytes → List Bytes → Result DepositSpvError (Unit {0})
  deposit_headers prior [] = ok tt
  deposit_headers prior (h ∷ headers) = do
    ensure (pow_ok h) DepositSpvError.header_pow_invalid
    ensure (bytes_eq (prev_block_hash h) prior) DepositSpvError.header_chain_broken
    deposit_headers (block_hash h) headers

  unfoldable pub verify_deposit_confirmation :
      BtcDepositConfirmation → Bytes → ℕ → List Bytes → ℕ → ℕ → Result DepositSpvError (Unit {0})
  verify_deposit_confirmation d deposit_txid deposit_sats pubkeys threshold min_depth = do
    ensure (bytes_eq (dsha256 d.deposit_tx_legacy) deposit_txid) txid_mismatch
    parsed ← run (legacy_tx_outputs d.deposit_tx_legacy)
    outs ← ok_or parsed malformed_tx
    paid ← ok_or (find_output (reserve_p2wsh_spk pubkeys threshold) outs) deposit_not_to_reserve
    ensure (paid == deposit_sats) deposit_amount_mismatch
    ensure (bytes_eq (block_hash d.inclusion_header) d.inclusion_block_hash)
        inclusion_header_mismatch
    ensure (pow_ok d.inclusion_header) DepositSpvError.header_pow_invalid
    ensure
        (bytes_eq (merkle_root_from_proof deposit_txid d.tx_index d.inclusion_merkle_proof)
          (merkle_root_field d.inclusion_header))
        inclusion_merkle_invalid
    ensure (leb min_depth (length d.confirmation_headers + 1)) confirmation_depth_insufficient
    deposit_headers d.inclusion_block_hash d.confirmation_headers

  -- The loop over the confirmation headers of a payout.
  unfoldable pub payout_headers : Bytes → List Bytes → Result SpvError (Unit {0})
  payout_headers prior [] = ok tt
  payout_headers prior (h ∷ headers) = do
    ensure (bytes_eq (prev_block_hash h) prior) SpvError.header_chain_broken
    ensure (pow_ok h) SpvError.header_pow_invalid
    payout_headers (block_hash h) headers

  -- `u32::saturating_add`.
  abbrev pub saturating_add_u32 : ℕ → ℕ → ℕ
  saturating_add_u32 a b = if ltb (a + b) (2 ^ 32) then a + b else 2 ^ 32 - 1

  unfoldable pub verify_payout_confirmation :
      BtcPayoutConfirmation → Bytes → ℕ → ℕ → Result SpvError (Unit {0})
  verify_payout_confirmation d payment_hash min_depth tip_height = do
    ensure (bytes_eq (sha256 (d.revealed_preimage ∷ [])) payment_hash) preimage_hash_mismatch
    ensure (bytes_eq (block_hash d.htlc_inclusion_header) d.htlc_inclusion_block_hash)
        htlc_header_mismatch
    ensure (bytes_eq (block_hash d.claim_inclusion_header) d.claim_inclusion_block_hash)
        claim_header_mismatch
    ensure (pow_ok d.htlc_inclusion_header) SpvError.header_pow_invalid
    ensure (pow_ok d.claim_inclusion_header) SpvError.header_pow_invalid
    ensure
        (bytes_eq
          (merkle_root_from_proof d.btc_htlc_txid d.htlc_tx_index d.htlc_inclusion_merkle_proof)
          (merkle_root_field d.htlc_inclusion_header))
        htlc_merkle_invalid
    ensure
        (bytes_eq
          (merkle_root_from_proof d.claim_spend_txid d.claim_tx_index
            d.claim_inclusion_merkle_proof)
          (merkle_root_field d.claim_inclusion_header))
        claim_merkle_invalid
    ensure (bytes_eq (dsha256 d.claim_tx_legacy) d.claim_spend_txid) malformed_claim_tx
    (in_txid, in_vout) ←
        ok_or (legacy_tx_input_outpoint d.claim_tx_legacy d.claim_spend_input_index)
          malformed_claim_tx
    ensure (bytes_eq in_txid d.btc_htlc_txid && in_vout == d.btc_htlc_vout)
        claim_does_not_spend_htlc
    ensure (leb d.htlc_inclusion_block_height d.claim_inclusion_block_height) claim_before_htlc
    ensure (leb min_depth (length d.confirmation_headers)) insufficient_confirmations
    payout_headers d.claim_inclusion_block_hash d.confirmation_headers
    ensure (leb (saturating_add_u32 d.claim_inclusion_block_height (min_depth % 2 ^ 32)) tip_height)
        not_buried_deep_enough
