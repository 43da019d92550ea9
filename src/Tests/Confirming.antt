-- ===== src/Tests/Confirming.antt =====
-- A deposit and a payout in blocks of a chain.
use sats_usd.Base.{ℕ, ◌/◌, ◌%◌, ◌≡◌, refl, List, [], ◌∷◌, ◌++◌, Bytes, ok, some, replicate, length}
use sats_usd.Crypto.{sha256}
use sats_usd.Types.{BtcDepositConfirmation, BtcPayoutConfirmation}
use sats_usd.Spv.{
  reserve_p2wsh_spk, dsha256, block_hash, merkle_root_from_proof, merkle_root_field,
  deposit_headers, payout_headers, verify_deposit_confirmation, verify_payout_confirmation,
  legacy_tx_outputs, legacy_tx_input_outpoint,
}
use sats_usd.Spv.Accepted.{verify_deposit_confirmation_shown, verify_payout_confirmation_shown}
use sats_usd.Tests.Registering.{key}
use sats_usd.Tests.Toy.{toy}

-- A transaction that spends output 1 of `from` and pays `sats` (below 2^16) to `spk`.
abbrev pub transaction : Bytes → ℕ → Bytes → Bytes
transaction from sats spk =
    replicate 4 0
    ++ (1
        ∷ (from
            ++ (1
                ∷ 0
                ∷ 0
                ∷ 0
                ∷ 0
                ∷ 255
                ∷ 255
                ∷ 255
                ∷ 255
                ∷ 1
                ∷ sats % 256
                ∷ sats / 256
                ∷ 0
                ∷ 0
                ∷ 0
                ∷ 0
                ∷ 0
                ∷ 0
                ∷ length spk
                ∷ (spk ++ replicate 4 0))))

abbrev pub header : Bytes → Bytes → Bytes
header before tree =
    replicate 4 0 ++ (before ++ (tree ++ (replicate 4 0 ++ (255 ∷ 255 ∷ 127 ∷ 32 ∷ replicate 4 0))))

abbrev pub committee_keys : List Bytes
committee_keys = (2 ∷ key 1) ∷ (2 ∷ key 2) ∷ []

abbrev pub deposit_tx : Bytes
deposit_tx = transaction (key 3) 50000 (reserve_p2wsh_spk ⦃c = toy⦄ committee_keys 2)

abbrev pub deposit_txid : Bytes
deposit_txid = dsha256 ⦃c = toy⦄ deposit_tx

abbrev block : Bytes
block = header (key 0) (dsha256 ⦃c = toy⦄ (key 2 ++ deposit_txid))

abbrev next_block : Bytes → Bytes
next_block before = header (block_hash ⦃c = toy⦄ before) (key 4)

abbrev headers : List Bytes
headers =
    let b1 = next_block block in
    let b2 = next_block b1 in
    let b3 = next_block b2 in let b4 = next_block b3 in b1 ∷ b2 ∷ b3 ∷ b4 ∷ next_block b4 ∷ []

abbrev pub deposit : BtcDepositConfirmation
deposit = record {
  deposit_tx_legacy = deposit_tx;
  inclusion_header = block;
  inclusion_block_hash = block_hash ⦃c = toy⦄ block;
  inclusion_block_height = 100;
  inclusion_merkle_proof = key 2 ∷ [];
  tx_index = 1;
  confirmation_headers = headers;
}

pub deposit_confirmed :
    verify_deposit_confirmation ⦃c = toy⦄ deposit deposit_txid 50000 committee_keys 2 6 ≡ ok tt
unfolding verify_deposit_confirmation dsha256 sha256 mathlib.Core.List.flatten reserve_p2wsh_spk
    sats_usd.Spv.reserve_witness_script sats_usd.Spv.push_keys legacy_tx_outputs
    sats_usd.Spv.read_varint sats_usd.Spv.skip_inputs sats_usd.Spv.read_outputs
    sats_usd.Spv.find_output block_hash sats_usd.Spv.pow_ok sats_usd.Derive.bytes_leb
    sats_usd.Spv.target_from_nbits merkle_root_from_proof merkle_root_field
    sats_usd.Spv.prev_block_hash sats_usd.Spv.put_mantissa sats_usd.Spv.from_le_bytes
    sats_usd.Spv.get_slice sats_usd.Spv.read_le deposit_headers
deposit_confirmed = refl

verify_deposit_confirmation_shown_example :
    merkle_root_from_proof ⦃c = toy⦄ deposit_txid 1 (key 2 ∷ []) ≡ merkle_root_field block
verify_deposit_confirmation_shown_example =
    (verify_deposit_confirmation_shown ⦃c = toy⦄ deposit deposit_txid 50000 committee_keys 2 6
      deposit_confirmed).4

abbrev htlc_block : Bytes
htlc_block = header (key 0) (key 3)

abbrev claim_tx : Bytes
claim_tx = transaction (key 3) 40000 (key 5)

abbrev claim_block : Bytes
claim_block = header (block_hash ⦃c = toy⦄ htlc_block) (dsha256 ⦃c = toy⦄ claim_tx)

abbrev payout : BtcPayoutConfirmation
payout = record {
  btc_htlc_txid = key 3;
  btc_htlc_vout = 1;
  htlc_output_value_sats = 40000;
  htlc_output_script = key 6;
  htlc_inclusion_block_hash = block_hash ⦃c = toy⦄ htlc_block;
  htlc_inclusion_block_height = 100;
  htlc_inclusion_merkle_proof = [];
  claim_spend_txid = dsha256 ⦃c = toy⦄ claim_tx;
  claim_spend_input_index = 0;
  claim_spend_witness = [];
  claim_tx_legacy = claim_tx;
  revealed_preimage = key 9;
  claim_inclusion_block_hash = block_hash ⦃c = toy⦄ claim_block;
  claim_inclusion_block_height = 101;
  claim_inclusion_merkle_proof = [];
  confirmation_headers = next_block claim_block ∷ next_block (next_block claim_block) ∷ [];
  htlc_tx_index = 0;
  claim_tx_index = 0;
  htlc_inclusion_header = htlc_block;
  claim_inclusion_header = claim_block;
}

payout_confirmed :
    verify_payout_confirmation ⦃c = toy⦄ payout (sha256 ⦃c = toy⦄ (key 9 ∷ [])) 2 103 ≡ ok tt
unfolding verify_payout_confirmation sha256 mathlib.Core.List.flatten block_hash dsha256
    sats_usd.Spv.pow_ok sats_usd.Derive.bytes_leb sats_usd.Spv.target_from_nbits
    sats_usd.Spv.from_le_bytes merkle_root_from_proof merkle_root_field legacy_tx_input_outpoint
    sats_usd.Spv.read_varint sats_usd.Spv.find_outpoint payout_headers sats_usd.Spv.prev_block_hash
payout_confirmed = refl

verify_payout_confirmation_shown_example : legacy_tx_input_outpoint claim_tx 0 ≡ some (key 3, 1)
verify_payout_confirmation_shown_example =
    (verify_payout_confirmation_shown ⦃c = toy⦄ payout (sha256 ⦃c = toy⦄ (key 9 ∷ [])) 2 103
      payout_confirmed).4
