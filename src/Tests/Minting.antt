-- ===== src/Tests/Minting.antt =====
-- A mint in its two stages, the tiers, and the count of signers.
use sats_usd.Base.{
  ◌+◌, ◌*◌, ◌^◌, ◌≤◌, ◌≡◌, ◌≢◌, ◌↔◌, ◌⊎◌, refl, List, [], ◌∷◌, Bytes, ok, err, none, value,
  panicked, Result, panic, true, arith,
}
use sats_usd.Crypto.{Crypto}
use sats_usd.Derive.{issuer_position_hash, reserve_committee_hash, mint_commitment}
use sats_usd.Smt.{leaf_hash}
use sats_usd.Types.{StateRoot, IssuerPosition, IssuerStatus}
use sats_usd.Transition.{MultisigSig, count_signers}
use sats_usd.Tier.{collateral_ratio_ppm, recompute_tier, healthy, pause_mint}
use sats_usd.Tier.Ratio.{collateral_ratio_ppm-panicked}
use sats_usd.Tier.Bands.{Covers, InTier, recompute_tier-InTier}
use sats_usd.Mint.{
  MintCommitWitness, MintFinalizeWitness, tier_not_healthy, apply_mint_commit, apply_mint_finalize,
  issuer_after_commit, issuer_after_finalize,
}
use sats_usd.Mint.Commit.{apply_mint_commit_checked, apply_mint_commit_reserve, issuer_two_phase}
use sats_usd.Mint.Finalize.{apply_mint_finalize_backed, apply_mint_finalize-healthy}
use sats_usd.Tests.Registering.{key, siblings, root_over, genesis, state_of}
use sats_usd.Tests.Confirming.{committee_keys, deposit, deposit_txid}
use sats_usd.Tests.Toy.{toy}

abbrev bob : IssuerPosition
bob = record {
  issuer_id = key 5;
  status = IssuerStatus.active;
  multisig_pubkeys = key 1 ∷ key 2 ∷ [];
  multisig_threshold = 2;
  reserve_deposits_sats = 0;
  minted_satusd_atoms = 0;
  pending_mint_atoms = 0;
  collateral_ratio_ppm = 0;
  last_deposit_txid = none;
  freeze_reason = none;
  registered_at_height = 90;
  pending_mint_commitment = none;
}

abbrev signatures : List MultisigSig
signatures =
    record { signer_pubkey = key 2; signature = key 2 }
    ∷ record { signer_pubkey = key 1; signature = key 1 }
    ∷ []

abbrev request : MintCommitWitness
request = record {
  issuer_id = key 5;
  requested_mint_atoms = 3000;
  deposit_txid = deposit_txid;
  deposit_sats = 50000;
  asset_metadata_commitment = key 7;
  signatures = signatures;
  oracle_price_e8 = 6000000000000;
  deposit_confirmation = deposit;
  reserve_committee_pubkeys = committee_keys;
  reserve_committee_threshold = 2;
}

abbrev root_of : IssuerPosition → Bytes
root_of p = root_over (key 5) (leaf_hash ⦃c = toy⦄ (key 5) (issuer_position_hash ⦃c = toy⦄ p))

abbrev before : StateRoot
before = record genesis {
  issuer_positions_root = root_of bob;
  reserve_committee_hash = reserve_committee_hash ⦃c = toy⦄ 2 committee_keys;
}

abbrev committed : StateRoot
committed = state_of (apply_mint_commit ⦃c = toy⦄ before bob siblings request)

bob_commits : apply_mint_commit ⦃c = toy⦄ before bob siblings request ≡ ok committed
unfolding apply_mint_commit sats_usd.Mint.issuer_in_state sats_usd.Smt.verify_inclusion
    sats_usd.Smt.folds_to sats_usd.Smt.fold_to_root sats_usd.Smt.fold_levels
    sats_usd.Crypto.fr_to_be_bytes sats_usd.Smt.bit sats_usd.Crypto.poseidon2
    sats_usd.Crypto.fr_from_be_bytes leaf_hash sats_usd.Crypto.hash_bytes issuer_position_hash
    sats_usd.Crypto.tagged_hash sats_usd.Crypto.sha256 mathlib.Core.List.flatten
    sats_usd.Types.encode_issuer_position sats_usd.Encoding.fixed sats_usd.Crypto.verify_ecdsa
    sats_usd.Crypto.chunks_31 sats_usd.Crypto.fold_limbs sats_usd.Derive.bytes_leb
    sats_usd.Derive.insert_sorted sats_usd.Derive.sort_unstable mint_commitment
    sats_usd.Derive.mint_request_sighash reserve_committee_hash sats_usd.Encoding.be_bytes
    sats_usd.Encoding.enum_u8 sats_usd.Encoding.opt sats_usd.Encoding.seq
    sats_usd.Encoding.seq_items sats_usd.Encoding.u32 sats_usd.Encoding.u64 sats_usd.Encoding.u8
    sats_usd.Mint.count_valid_multisig sats_usd.Mint.deposit_error issuer_after_commit
    sats_usd.Smt.fold_step sats_usd.Smt.root_after_update sats_usd.Spv.block_hash
    sats_usd.Spv.dsha256 sats_usd.Spv.merkle_root_field sats_usd.Spv.merkle_root_from_proof
    sats_usd.Spv.pow_ok sats_usd.Spv.prev_block_hash sats_usd.Spv.put_mantissa
    sats_usd.Spv.target_from_nbits sats_usd.Spv.from_le_bytes sats_usd.Spv.get_slice
    sats_usd.Spv.legacy_tx_outputs sats_usd.Spv.push_keys sats_usd.Spv.read_le
    sats_usd.Spv.read_outputs sats_usd.Spv.read_varint sats_usd.Spv.reserve_p2wsh_spk
    sats_usd.Spv.reserve_witness_script sats_usd.Spv.skip_inputs sats_usd.Spv.deposit_headers
    sats_usd.Spv.find_output sats_usd.Spv.verify_deposit_confirmation collateral_ratio_ppm
    sats_usd.Tier.emergency_tier_u8 sats_usd.Tier.tier_of_ratio count_signers
    sats_usd.Transition.fe_scalar sats_usd.Transition.fe_split sats_usd.Transition.fold_fields
    sats_usd.Transition.next_state sats_usd.Transition.set_state_tier
    sats_usd.Transition.state_field_elements sats_usd.Transition.state_root_hash
    sats_usd.Transition.tier_fields sats_usd.Types.freeze_reason_u8 sats_usd.Types.issuer_status_u8
    sats_usd.Types.transition_type_u8
bob_commits = refl

apply_mint_commit_checked_example : bob.pending_mint_commitment ≡ none
apply_mint_commit_checked_example =
    (apply_mint_commit_checked ⦃c = toy⦄ before committed bob siblings request bob_commits).2

apply_mint_commit_reserve_example : committed.reserve_btc_sats ≡ 500000 + 50000
apply_mint_commit_reserve_example =
    (apply_mint_commit_reserve ⦃c = toy⦄ before committed bob siblings request bob_commits).0

abbrev position_of {κ} : {E : Type κ} → Result E IssuerPosition → IssuerPosition
position_of (ok p) = p
position_of (err e) = bob
position_of panic = bob

abbrev bob_pending : IssuerPosition
bob_pending = position_of (issuer_after_commit ⦃c = toy⦄ bob request)

abbrev bob_minted : IssuerPosition
bob_minted = position_of (issuer_after_finalize bob_pending 3000)

bob_after_commit : issuer_after_commit ⦃c = toy⦄ bob request ≡ ok bob_pending
unfolding issuer_after_commit
bob_after_commit = refl

bob_after_finalize : issuer_after_finalize bob_pending 3000 ≡ ok bob_minted
unfolding issuer_after_finalize issuer_after_commit
bob_after_finalize = refl

issuer_two_phase_example : bob_minted.minted_satusd_atoms ≡ 0 + 3000
issuer_two_phase_example =
    (issuer_two_phase ⦃c = toy⦄ bob bob_pending bob_minted request bob_after_commit
      bob_after_finalize).1

abbrev final : MintFinalizeWitness
final = record {
  issuer_id = key 5;
  requested_mint_atoms = 3000;
  deposit_txid = deposit_txid;
  asset_metadata_commitment = key 7;
  mint_anchor_confirmations = 6;
  mint_proof_ok = true;
  oracle_price_e8 = 6000000000000;
}

abbrev pending : StateRoot
pending = record genesis { issuer_positions_root = root_of bob_pending }

abbrev minted : StateRoot
minted = state_of (apply_mint_finalize ⦃c = toy⦄ pending bob_pending siblings final)

bob_finalizes : apply_mint_finalize ⦃c = toy⦄ pending bob_pending siblings final ≡ ok minted
unfolding apply_mint_finalize issuer_after_commit sats_usd.Mint.issuer_in_state
    sats_usd.Smt.verify_inclusion sats_usd.Smt.folds_to sats_usd.Smt.fold_to_root
    sats_usd.Smt.fold_levels sats_usd.Crypto.fr_to_be_bytes sats_usd.Smt.bit
    sats_usd.Crypto.poseidon2 sats_usd.Crypto.fr_from_be_bytes leaf_hash sats_usd.Crypto.hash_bytes
    issuer_position_hash sats_usd.Crypto.tagged_hash sats_usd.Crypto.sha256
    mathlib.Core.List.flatten sats_usd.Types.encode_issuer_position sats_usd.Crypto.chunks_31
    sats_usd.Crypto.fold_limbs mint_commitment sats_usd.Encoding.be_bytes sats_usd.Encoding.enum_u8
    sats_usd.Encoding.fixed sats_usd.Encoding.opt sats_usd.Encoding.seq sats_usd.Encoding.seq_items
    sats_usd.Encoding.u32 sats_usd.Encoding.u64 sats_usd.Encoding.u8 issuer_after_finalize
    sats_usd.Smt.fold_step sats_usd.Smt.root_after_update collateral_ratio_ppm
    sats_usd.Tier.emergency_tier_u8 sats_usd.Tier.tier_of_ratio sats_usd.Transition.fe_scalar
    sats_usd.Transition.fe_split sats_usd.Transition.fold_fields sats_usd.Transition.next_state
    sats_usd.Transition.set_state_tier sats_usd.Transition.state_field_elements
    sats_usd.Transition.state_root_hash sats_usd.Transition.tier_fields
    sats_usd.Types.freeze_reason_u8 sats_usd.Types.issuer_status_u8
    sats_usd.Types.transition_type_u8 apply_mint_commit sats_usd.Crypto.verify_ecdsa
    sats_usd.Derive.bytes_leb sats_usd.Derive.insert_sorted sats_usd.Derive.sort_unstable
    sats_usd.Derive.mint_request_sighash reserve_committee_hash sats_usd.Mint.count_valid_multisig
    sats_usd.Mint.deposit_error count_signers sats_usd.Spv.block_hash sats_usd.Spv.dsha256
    sats_usd.Spv.merkle_root_field sats_usd.Spv.merkle_root_from_proof sats_usd.Spv.pow_ok
    sats_usd.Spv.prev_block_hash sats_usd.Spv.put_mantissa sats_usd.Spv.target_from_nbits
    sats_usd.Spv.from_le_bytes sats_usd.Spv.get_slice sats_usd.Spv.legacy_tx_outputs
    sats_usd.Spv.push_keys sats_usd.Spv.read_le sats_usd.Spv.read_outputs sats_usd.Spv.read_varint
    sats_usd.Spv.reserve_p2wsh_spk sats_usd.Spv.reserve_witness_script sats_usd.Spv.skip_inputs
    sats_usd.Spv.deposit_headers sats_usd.Spv.find_output sats_usd.Spv.verify_deposit_confirmation
bob_finalizes = refl

apply_mint_finalize_backed_example :
    Covers 200 minted.reserve_btc_sats minted.sat_usd_supply_atoms 6000000000000
apply_mint_finalize_backed_example =
    (apply_mint_finalize_backed ⦃c = toy⦄ pending minted bob_pending siblings final bob_finalizes).9

apply_mint_finalize-healthy_example :
    apply_mint_finalize ⦃c = toy⦄ pending bob_pending siblings final
    ≢ err (tier_not_healthy 1600000)
apply_mint_finalize-healthy_example =
    apply_mint_finalize-healthy ⦃c = toy⦄ pending minted bob_pending siblings final 1600000

-- 140 cents of reserve for each dollar.
tier_at_140 : recompute_tier 280000 (120 * 100) 6000000000000 ≡ value pause_mint
unfolding recompute_tier collateral_ratio_ppm
tier_at_140 = refl

recompute_tier-InTier_example : InTier pause_mint 280000 (120 * 100) 6000000000000
recompute_tier-InTier_example = recompute_tier-InTier 280000 (120 * 100) 6000000000000 tier_at_140

-- A reserve of 21 million bitcoin at a million dollars fits, whatever the supply.
collateral_ratio_ppm-panicked_example :
    (collateral_ratio_ppm 2100000000000000 1 100000000000000 ≡ panicked) ↔ (
      (2 ^ 128 ≤ 2100000000000000 * 100000000000000 * 1_000_000)
      ⊎ (2 ^ 64 * (1 * 10 ^ 14) ≤ 2100000000000000 * 100000000000000 * 1_000_000))
collateral_ratio_ppm-panicked_example =
    collateral_ratio_ppm-panicked 2100000000000000 1 100000000000000 (omega arith) (omega arith)
