-- ===== src/Tests/Redeemed.antt =====
-- A claim that redeems a lock.
use sats_usd.Base.{◌*◌, ◌≤◌, ◌^◌, ℕ, ◌≡◌, refl, [], ◌∷◌, Bytes, ok, value, panicked, replicate}
use sats_usd.Crypto.{Crypto}
use sats_usd.Smt.{fold_to_root, leaf_hash}
use sats_usd.TaProof.Anchor.{Bitcoin}
use sats_usd.Types.{StateRoot, RedeemIntent, LockRecord, OutPoint}
use sats_usd.Redeem.{set_member}
use sats_usd.Redeem.Lock.{RedeemLockWitness, apply_redeem_lock, check_lineage_lock_binding}
use sats_usd.Crypto.{batch_root_be}
use sats_usd.Claim.{BatchRedemption, ReserveClaimWitness}
use sats_usd.Claim.Batch.{advance, check_active, Running, redeem_batch}
use sats_usd.Claim.Submit.{
  batch_price, check_linkage, start, settle_batch, verify_reserve_claim_finalize,
}
use sats_usd.Claim.Accounting.{verify_reserve_claim_finalize_books}
use sats_usd.Transition.{state_root_hash, tier_fields}
use sats_usd.Types.{BtcPayoutConfirmation, LockFinalizeRecord, OracleMessage, ReserveClaim}
use sats_usd.Tests.Confirming.{transaction, header}
use mathlib.Core.Logic.{if_pos}
use sats_usd.Smt.{
  SparseMerkleTree, root, prove, insert, verify_inclusion, verify_exclusion, root_after_update,
}
use sats_usd.Types.{StateRoot-discrete}
use sats_usd.Tests.Registering.{key, siblings, root_over}
use sats_usd.Tests.Proving.{flat, one_output, sevens, steps_file}
use sats_usd.Tests.Redeeming.{intent, lock, before}

abbrev pub finalize : LockFinalizeRecord
finalize = record {
  lock_record_hash = sevens;
  payment_preimage = key 9;
  finalize_anchor_txid = key 3;
  finalize_anchor_outpoint = record { txid = key 3; vout = 0 };
  protocol_sink_script_key = sevens;
  protocol_burn_internal_key = sevens;
  finalized_amount_atoms = 5000;
  operator_id = key 5;
  finalize_height = 120;
  universe_burn_proof_hash = sevens;
}

abbrev pub next_block : Bytes
next_block = header sevens (key 4)

abbrev pub payout : BtcPayoutConfirmation
payout = record {
  btc_htlc_txid = key 3;
  btc_htlc_vout = 1;
  htlc_output_value_sats = 83000;
  htlc_output_script = key 6;
  htlc_inclusion_block_hash = sevens;
  htlc_inclusion_block_height = 100;
  htlc_inclusion_merkle_proof = [];
  claim_spend_txid = sevens;
  claim_spend_input_index = 0;
  claim_spend_witness = [];
  claim_tx_legacy = transaction (key 3) 40000 (key 5);
  revealed_preimage = key 9;
  claim_inclusion_block_hash = sevens;
  claim_inclusion_block_height = 101;
  claim_inclusion_merkle_proof = [];
  confirmation_headers = replicate 6 next_block;
  htlc_tx_index = 0;
  claim_tx_index = 0;
  htlc_inclusion_header = header (key 0) (key 3);
  claim_inclusion_header = header sevens sevens;
}

abbrev pub redemption : BatchRedemption
redemption = record {
  redeem_intent = intent;
  lock_record = lock;
  lock_finalize = finalize;
  payout_confirmation = payout;
  lock_membership_proof = siblings;
  consumed_exclusion_proof = siblings;
  refund_exclusion_proof = siblings;
  nullifier_exclusion_proof = siblings;
  burn_proof = steps_file;
}

abbrev pub message : ℕ → OracleMessage
message n = record {
  domain = key 0;
  oracle_id = key n;
  oracle_set_epoch = 1;
  price_epoch = 3;
  timestamp_ms = 3600000;
  pair = [];
  price_e8 = 6000000000000;
  source_commitment = key 0;
  signer_pubkey = key n;
  signature = key n;
}

abbrev pub spendable : StateRoot
spendable = record before {
  sat_usd_supply_atoms = 10000;
  oracle_set_hash = sevens;
  lock_record_root = root_over sevens (leaf_hash ⦃c = flat⦄ sevens set_member);
  lock_consumed_root = root_over sevens [];
  lock_refund_root = root_over sevens [];
  redemption_nullifier_root = root_over sevens [];
  pending_claim_root = root_over sevens [];
}

abbrev pub tiers : ℕ × ℕ
tiers = elim (tier_fields 500000 5000 6000000000000) [ value t ↦ t | panicked ↦ (0, 0) ]

abbrev pub spent : StateRoot
spent = record spendable {
  state_epoch = 8;
  prev_state_root = state_root_hash ⦃c = flat⦄ spendable;
  transition_type = 17;
  sat_usd_supply_atoms = 5000;
  reserved_pending_claim_sats = 84233;
  latest_oracle_price_e8 = 6000000000000;
  collateral_ratio_ppm = tiers.0;
  emergency_tier = tiers.1;
  lock_consumed_root = root_over sevens (leaf_hash ⦃c = flat⦄ sevens set_member);
  redemption_nullifier_root = root_over sevens (leaf_hash ⦃c = flat⦄ sevens set_member);
  live_da_root = sevens;
  pending_claim_root = root_over sevens (leaf_hash ⦃c = flat⦄ sevens sevens);
}

abbrev pub claim : ReserveClaim
claim = record {
  claim_id = sevens;
  transition_type = 17;
  operator_id = key 5;
  prev_state_root = state_root_hash ⦃c = flat⦄ spendable;
  new_state_root = state_root_hash ⦃c = flat⦄ spent;
  redemption_batch_root = batch_root_be ⦃c = flat⦄ (sevens ∷ []);
  oracle_batch_root = [];
  lock_batch_root = [];
  payout_batch_root = [];
  confirmation_batch_root = [];
  finalize_batch_root = [];
  burn_proof_batch_root = [];
  lineage_proof_batch_root = [];
  live_da_root = sevens;
  archival_da_root = [];
  l1_anchor = record {
    l1_anchor_height = 100;
    l1_anchor_hash = key 7;
    l1_anchor_mtp = 0;
    l1_anchor_chain_time = 3600;
    recent_header_chain = [];
    oracle_epoch = 1;
    selected_oracle_price_e8 = 6000000000000;
    max_epoch_lag_sec = 60;
    oracle_future_tolerance = 60;
  };
  reserve_shard_id = 0;
  reimbursement_sats = 83333;
  proof_commitment = [];
  claim_expiry_height = 300;
  operator_signature = [];
}

abbrev pub claim_witness : ReserveClaimWitness
claim_witness = record {
  claim = claim;
  redemptions = redemption ∷ [];
  oracle_messages = message 1 ∷ message 2 ∷ message 3 ∷ [];
  oracle_signer_set = key 1 ∷ key 2 ∷ key 3 ∷ [];
  pending_claim_exclusion_proof = siblings;
  btc_tip_height = 110;
}

linked : check_linkage ⦃c = flat⦄ spendable spent claim ≡ ok tt
unfolding sats_usd.Claim.Submit.check_linkage sats_usd.Transition.tier_fields
    sats_usd.Transition.state_root_hash sats_usd.Transition.fold_fields
    sats_usd.Transition.state_field_elements sats_usd.Transition.fe_split
    sats_usd.Transition.fe_scalar sats_usd.Tier.collateral_ratio_ppm sats_usd.Tier.tier_of_ratio
    sats_usd.Tier.emergency_tier_u8 sats_usd.Smt.fold_to_root sats_usd.Smt.fold_levels
    sats_usd.Smt.leaf_hash sats_usd.Smt.bit sats_usd.Crypto.fr_to_be_bytes sats_usd.Crypto.poseidon2
    sats_usd.Crypto.fr_from_be_bytes sats_usd.Crypto.hash_bytes sats_usd.Crypto.fold_limbs
    sats_usd.Crypto.chunks_31 sats_usd.Types.transition_type_u8
linked = refl

priced : batch_price ⦃c = flat⦄ spendable claim_witness ≡ ok 6000000000000
unfolding sats_usd.Crypto.tagged_hash sats_usd.Crypto.tap_tweak_data
    sats_usd.Oracle.verify_signatures sats_usd.Oracle.aggregate sats_usd.Oracle.check_messages
    sats_usd.Oracle.count sats_usd.Oracle.is_inlier sats_usd.Oracle.median_price
    sats_usd.Oracle.sort_prices sats_usd.Oracle.insert_price sats_usd.Derive.oracle_set_hash
    sats_usd.Crypto.verify_eddsa_babyjub sats_usd.Claim.Submit.batch_price
priced = refl

abbrev pub after_batch : Running
after_batch = record {
  consumed_root = spent.lock_consumed_root;
  nullifier_root = spent.redemption_nullifier_root;
  total_amount = 5000;
  total_gross = 83333;
  leaves = sevens ∷ [];
  seen = sevens ∷ [];
}

batched :
    redeem_batch ⦃c = flat⦄ ⦃bitcoin = one_output⦄ spendable
      (key 5)
      110
      6000000000000
      (start ⦃c = flat⦄ spendable)
      (redemption ∷ [])
    ≡ ok after_batch
unfolding sats_usd.Redeem.Lock.check_lineage_lock_binding sats_usd.TaProof.Tlv.parse_proof_file
    sats_usd.TaProof.Cursor.cursor_take sats_usd.TaProof.Cursor.write_bigsize
    sats_usd.TaProof.Tlv.reencode sats_usd.TaProof.Tlv.encode_records sats_usd.Encoding.u8
    sats_usd.Encoding.u16 sats_usd.TaProof.Cursor.cursor_u32_be
    sats_usd.TaProof.Cursor.cursor_bigsize sats_usd.TaProof.Tlv.file_proofs
    sats_usd.TaProof.Cursor.cursor_wide sats_usd.TaProof.Cursor.from_be_bytes sats_usd.Crypto.sha256
    sats_usd.TaProof.Tlv.parsed sats_usd.TaProof.Tlv.parse_all sats_usd.TaProof.Tlv.parse_proof
    mathlib.Core.List.flatten sats_usd.Crypto.bip341_hash sats_usd.Crypto.tagged_hash
    sats_usd.Crypto.tap_tweak sats_usd.Crypto.tap_tweak_data sats_usd.Derive.bytes_leb
    sats_usd.Derive.asset_family_id sats_usd.Derive.lineage_proof_hash sats_usd.Encoding.be_bytes
    sats_usd.Encoding.u32 sats_usd.Encoding.u64 sats_usd.Redeem.Lock.head_checks
    sats_usd.Redeem.Lock.key_33 sats_usd.Redeem.Lock.last_proof sats_usd.TaProof.Anchor.dsha256
    sats_usd.TaProof.Anchor.fold_nodes sats_usd.TaProof.Anchor.merkle_root
    sats_usd.TaProof.Anchor.parse_tx_merkle_proof sats_usd.TaProof.Anchor.take_nodes
    sats_usd.TaProof.Anchor.verify_anchor sats_usd.TaProof.Commitment.asset_commitment_key
    sats_usd.TaProof.Commitment.leaf_value sats_usd.TaProof.Commitment.reconstruct_output_key
    sats_usd.TaProof.Commitment.sibling_tap_hash sats_usd.TaProof.Commitment.ta_leaf_hash
    sats_usd.TaProof.Commitment.tap_branch_hash sats_usd.TaProof.Commitment.tapscript_root
    sats_usd.TaProof.Commitment.verify_asset_inclusion sats_usd.TaProof.Leaf.asset_id
    sats_usd.TaProof.Leaf.asset_leaf sats_usd.TaProof.Leaf.exact sats_usd.TaProof.Leaf.has_record
    sats_usd.TaProof.Leaf.parse_asset_leaf sats_usd.TaProof.Leaf.parse_commitment
    sats_usd.TaProof.Leaf.parse_commitment_proof sats_usd.TaProof.Leaf.parse_genesis
    sats_usd.TaProof.Leaf.parse_taproot_proof sats_usd.TaProof.Leaf.split_committed_leaf_bytes
    sats_usd.TaProof.Leaf.split_leaf sats_usd.TaProof.Leaf.u32_le
    sats_usd.TaProof.Leaf.with_prev_witness sats_usd.TaProof.Leaf.without_split
    sats_usd.TaProof.Lineage.follows sats_usd.TaProof.Lineage.lineage_from
    sats_usd.TaProof.Lineage.prev_outpoint sats_usd.TaProof.Lineage.verify_lineage
    sats_usd.TaProof.Mssmt.bit_lsb sats_usd.TaProof.Mssmt.branch sats_usd.TaProof.Mssmt.empty_node
    sats_usd.TaProof.Mssmt.leaf sats_usd.TaProof.Mssmt.parse_compressed_proof
    sats_usd.TaProof.Mssmt.proof_root sats_usd.TaProof.Mssmt.read_nodes
    sats_usd.TaProof.Mssmt.spread sats_usd.TaProof.Mssmt.walk_up sats_usd.TaProof.Tlv.bigsize_exact
    sats_usd.TaProof.Tlv.find_record sats_usd.TaProof.Tlv.get_field sats_usd.TaProof.Tlv.parse_tlv
    sats_usd.TaProof.Tlv.tlv_records sats_usd.Redeem.Lock.apply_redeem_lock
    sats_usd.Redeem.check_intent_lock_binding sats_usd.Derive.redeem_intent_hash
    sats_usd.Crypto.chunks_31 sats_usd.Crypto.fold_limbs sats_usd.Crypto.fr_from_be_bytes
    sats_usd.Crypto.fr_to_be_bytes sats_usd.Crypto.hash_bytes sats_usd.Crypto.poseidon2
    sats_usd.Derive.lock_record_hash sats_usd.Derive.lock_tweak sats_usd.Smt.bit
    sats_usd.Smt.fold_levels sats_usd.Smt.fold_step sats_usd.Smt.fold_to_root sats_usd.Smt.folds_to
    sats_usd.Smt.leaf_hash sats_usd.Smt.root_after_update sats_usd.Smt.verify_exclusion
    sats_usd.Transition.fe_scalar sats_usd.Transition.fe_split sats_usd.Transition.fold_fields
    sats_usd.Transition.next_state sats_usd.Transition.state_field_elements
    sats_usd.Transition.state_root_hash sats_usd.Spv.verify_payout_confirmation
    sats_usd.Spv.block_hash sats_usd.Spv.dsha256 sats_usd.Spv.pow_ok sats_usd.Spv.target_from_nbits
    sats_usd.Spv.from_le_bytes sats_usd.Spv.merkle_root_from_proof sats_usd.Spv.merkle_root_field
    sats_usd.Spv.legacy_tx_input_outpoint sats_usd.Spv.read_varint sats_usd.Spv.find_outpoint
    sats_usd.Spv.payout_headers sats_usd.Spv.prev_block_hash sats_usd.Redeem.apply_lock_refund
    sats_usd.Smt.verify_inclusion sats_usd.Crypto.is_valid_xonly sats_usd.Crypto.nums_from
    sats_usd.Crypto.derive_nums_key sats_usd.Crypto.protocol_burn_internal_key
    sats_usd.Crypto.protocol_burn_tweak sats_usd.Crypto.protocol_sink_script_key
    sats_usd.Claim.Burn.check_burn_proof_binding sats_usd.Claim.Burn.burn_checks
    sats_usd.Claim.Batch.check_paid sats_usd.Claim.Batch.check_active sats_usd.Claim.Batch.advance
    sats_usd.Claim.Batch.redeem_one sats_usd.Claim.Batch.redeem_batch
    sats_usd.Claim.Batch.is_operator sats_usd.Claim.Batch.gross_sats sats_usd.Claim.Batch.max_fee
    sats_usd.Derive.redemption_nullifier sats_usd.Claim.Submit.start
batched = refl

settled_books : settle_batch ⦃c = flat⦄ spendable claim_witness 6000000000000 after_batch ≡ ok spent
unfolding sats_usd.Types.transition_type_u8 sats_usd.Claim.Submit.settle_batch
    sats_usd.Claim.Submit.claim_state sats_usd.Crypto.batch_root_be
    sats_usd.Claim.live_da_root_for_claim sats_usd.Da.live_da_root sats_usd.Derive.claim_id
    sats_usd.Derive.pending_claim_hash sats_usd.Transition.tier_fields
    sats_usd.Tier.collateral_ratio_ppm sats_usd.Crypto.tagged_hash sats_usd.Crypto.sha256
    sats_usd.Smt.verify_exclusion sats_usd.Smt.root_after_update sats_usd.Smt.folds_to
    sats_usd.Smt.fold_to_root sats_usd.Smt.fold_levels sats_usd.Smt.fold_step sats_usd.Smt.leaf_hash
    sats_usd.Smt.bit sats_usd.Crypto.fr_to_be_bytes sats_usd.Crypto.poseidon2
settled_books = refl

claim_accepted :
    verify_reserve_claim_finalize ⦃c = flat⦄ ⦃bitcoin = one_output⦄ spendable spent claim_witness
    ≡ ok tt
unfolding verify_reserve_claim_finalize
claim_accepted =
    rw (linked, priced, batched, settled_books) (if_pos (StateRoot-discrete spent spent) refl _ _)

verify_reserve_claim_finalize_books_example : 83333 * 6000000000000 ≤ 5000 * 10 ^ 14
verify_reserve_claim_finalize_books_example =
    (verify_reserve_claim_finalize_books ⦃c = flat⦄ ⦃bitcoin = one_output⦄ spendable spent
      claim_witness claim_accepted).5
