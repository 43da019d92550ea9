-- ===== src/Tests/Spending.antt =====
-- A batch over the sets of spent locks and nullifiers.
use sats_usd.Base.{true, arith, ◌≡◌, refl, [], ◌∷◌, ok, value}
use sats_usd.Crypto.{Crypto}
use sats_usd.Smt.{fold_to_root, leaf_hash}
use sats_usd.TaProof.Anchor.{Bitcoin}
use sats_usd.Types.{StateRoot}
use sats_usd.Redeem.{set_member}
use sats_usd.Redeem.Lock.{RedeemLockWitness, apply_redeem_lock, check_lineage_lock_binding}
use sats_usd.Crypto.{batch_root_be}
use sats_usd.Claim.{BatchRedemption, ReserveClaimWitness}
use sats_usd.Claim.Batch.{advance, check_active, Running, redeem_batch}
use sats_usd.Claim.Submit.{
  batch_price, check_linkage, start, settle_batch, verify_reserve_claim_finalize,
}
use sats_usd.Claim.Spent.{redeem_batch_spends}
use sats_usd.Transition.{state_root_hash, tier_fields}
use sats_usd.Smt.{
  SparseMerkleTree, root, prove, insert, verify_inclusion, verify_exclusion, root_after_update,
}
use sats_usd.Smt.Complete.{FieldBytes, verify_exclusion-prove, root_after_update-insert}
use sats_usd.Smt.Sound.{CollisionFree}
use sats_usd.Smt.Sets.{set_tree, set_tree-IsTree, lookup-set_tree}
use sats_usd.Tests.Toy.{toy_field, toy_free}
use sats_usd.Tests.Registering.{key-IsKey, key, siblings}
use sats_usd.Tests.Proving.{flat, one_output, sevens}
use sats_usd.Tests.Redeemed.{redemption, spendable, after_batch}

flat_field : FieldBytes flat
unfolding sats_usd.Crypto.fr_to_be_bytes sats_usd.Crypto.fr_from_be_bytes
flat_field = record { from_to = λ x. toy_field.from_to x }

flat_free : CollisionFree flat
unfolding sats_usd.Crypto.poseidon2 sats_usd.Crypto.fr_from_be_bytes
flat_free = record {
  poseidon2_injective = λ a b x y e. toy_free.poseidon2_injective a b x y e;
  poseidon2_nonzero = λ a b e. toy_free.poseidon2_nonzero a b e;
  limb_injective = λ a b l s p q e. toy_free.limb_injective a b l s p q e;
}

-- The consumed locks and the nullifiers of a state with one of each.
abbrev pub one_spent : SparseMerkleTree ⦃c = flat⦄
one_spent = set_tree ⦃c = flat⦄ set_member (key 1 ∷ [])

abbrev pub listed : StateRoot
listed = record spendable {
  lock_consumed_root = root ⦃c = flat⦄ one_spent;
  redemption_nullifier_root = root ⦃c = flat⦄ one_spent;
}

abbrev pub own_proofs : BatchRedemption
own_proofs = record redemption {
  consumed_exclusion_proof = prove ⦃c = flat⦄ one_spent sevens;
  nullifier_exclusion_proof = prove ⦃c = flat⦄ one_spent sevens;
}

unspent :
    verify_exclusion ⦃c = flat⦄
      (root ⦃c = flat⦄ one_spent)
      sevens
      (prove ⦃c = flat⦄ one_spent sevens)
    ≡ true
unspent =
    verify_exclusion-prove ⦃c = flat⦄ flat_field one_spent sevens
      (set_tree-IsTree ⦃c = flat⦄ set_member (key 1 ∷ []) (key-IsKey 1 (omega arith), tt))
      (key-IsKey 7 (omega arith)) (lookup-set_tree ⦃c = flat⦄ set_member sevens (key 1 ∷ []) refl)

added :
    root_after_update ⦃c = flat⦄ sevens set_member (prove ⦃c = flat⦄ one_spent sevens)
    ≡ value (root ⦃c = flat⦄ (insert ⦃c = flat⦄ sevens set_member one_spent))
added =
    root_after_update-insert ⦃c = flat⦄ flat_field one_spent sevens
      (set_tree-IsTree ⦃c = flat⦄ set_member (key 1 ∷ []) (key-IsKey 1 (omega arith), tt))
      (key-IsKey 7 (omega arith)) set_member

listed_lock : verify_inclusion ⦃c = flat⦄ listed.lock_record_root sevens set_member siblings ≡ true
unfolding sats_usd.Crypto.chunks_31 sats_usd.Crypto.fold_limbs sats_usd.Crypto.fr_from_be_bytes
    sats_usd.Crypto.fr_to_be_bytes sats_usd.Crypto.hash_bytes sats_usd.Crypto.poseidon2
    sats_usd.Smt.bit sats_usd.Smt.fold_levels sats_usd.Smt.fold_step sats_usd.Smt.fold_to_root
    sats_usd.Smt.folds_to sats_usd.Smt.leaf_hash sats_usd.Smt.root_after_update
    sats_usd.Smt.verify_exclusion sats_usd.Smt.verify_inclusion
listed_lock = refl

not_refunded : verify_exclusion ⦃c = flat⦄ listed.lock_refund_root sevens siblings ≡ true
unfolding sats_usd.Crypto.chunks_31 sats_usd.Crypto.fold_limbs sats_usd.Crypto.fr_from_be_bytes
    sats_usd.Crypto.fr_to_be_bytes sats_usd.Crypto.hash_bytes sats_usd.Crypto.poseidon2
    sats_usd.Smt.bit sats_usd.Smt.fold_levels sats_usd.Smt.fold_step sats_usd.Smt.fold_to_root
    sats_usd.Smt.folds_to sats_usd.Smt.leaf_hash sats_usd.Smt.root_after_update
    sats_usd.Smt.verify_exclusion sats_usd.Smt.verify_inclusion
not_refunded = refl

still_active :
    check_active ⦃c = flat⦄ listed (start ⦃c = flat⦄ listed) own_proofs sevens sevens ≡ ok tt
unfolding sats_usd.Claim.Batch.check_active start
still_active = rw (listed_lock, unspent, not_refunded) refl

abbrev pub ended : Running
ended = record after_batch {
  consumed_root = root ⦃c = flat⦄ (insert ⦃c = flat⦄ sevens set_member one_spent);
  nullifier_root = root ⦃c = flat⦄ (insert ⦃c = flat⦄ sevens set_member one_spent);
}

moved_on : advance ⦃c = flat⦄ 6000000000000 (start ⦃c = flat⦄ listed) own_proofs ≡ ok ended
unfolding sats_usd.Claim.Batch.advance sats_usd.Crypto.sha256 mathlib.Core.List.flatten
    sats_usd.Crypto.tagged_hash sats_usd.Derive.lock_record_hash sats_usd.Claim.Batch.gross_sats
    sats_usd.Claim.Batch.max_fee sats_usd.Derive.redemption_nullifier sats_usd.Claim.Submit.start
moved_on = rw added refl

own_batch :
    redeem_batch ⦃c = flat⦄ ⦃bitcoin = one_output⦄ listed
      (key 5)
      110
      6000000000000
      (start ⦃c = flat⦄ listed)
      (own_proofs ∷ [])
    ≡ ok ended
unfolding redeem_batch sats_usd.Claim.Batch.redeem_one
    sats_usd.Redeem.Lock.check_lineage_lock_binding sats_usd.TaProof.Tlv.parse_proof_file
    sats_usd.TaProof.Cursor.cursor_take sats_usd.TaProof.Cursor.write_bigsize
    sats_usd.TaProof.Tlv.reencode sats_usd.TaProof.Tlv.encode_records sats_usd.Encoding.u8
    sats_usd.Encoding.u16 sats_usd.TaProof.Cursor.cursor_u32_be
    sats_usd.TaProof.Cursor.cursor_bigsize sats_usd.TaProof.Tlv.file_proofs
    sats_usd.TaProof.Cursor.cursor_wide sats_usd.TaProof.Cursor.from_be_bytes sats_usd.Crypto.sha256
    sats_usd.TaProof.Tlv.parsed sats_usd.TaProof.Tlv.parse_all sats_usd.TaProof.Tlv.parse_proof
    mathlib.Core.List.flatten sats_usd.Crypto.bip341_hash sats_usd.Crypto.tagged_hash
    sats_usd.Crypto.tap_tweak sats_usd.Crypto.tap_tweak_data sats_usd.Derive.bytes_leb
    sats_usd.Derive.asset_family_id sats_usd.Derive.lineage_proof_hash sats_usd.Encoding.be_bytes
    sats_usd.Encoding.u32 sats_usd.Encoding.u64 sats_usd.Redeem.Lock.head_checks
    sats_usd.Redeem.Lock.key_33 sats_usd.Redeem.Lock.last_proof sats_usd.TaProof.Anchor.dsha256
    sats_usd.TaProof.Anchor.fold_nodes sats_usd.TaProof.Anchor.merkle_root
    sats_usd.TaProof.Anchor.parse_tx_merkle_proof sats_usd.TaProof.Anchor.take_nodes
    sats_usd.TaProof.Anchor.verify_anchor sats_usd.TaProof.Commitment.asset_commitment_key
    sats_usd.TaProof.Commitment.leaf_value sats_usd.TaProof.Commitment.reconstruct_output_key
    sats_usd.TaProof.Commitment.sibling_tap_hash sats_usd.TaProof.Commitment.ta_leaf_hash
    sats_usd.TaProof.Commitment.tap_branch_hash sats_usd.TaProof.Commitment.tapscript_root
    sats_usd.TaProof.Commitment.verify_asset_inclusion sats_usd.TaProof.Leaf.asset_id
    sats_usd.TaProof.Leaf.asset_leaf sats_usd.TaProof.Leaf.exact sats_usd.TaProof.Leaf.has_record
    sats_usd.TaProof.Leaf.parse_asset_leaf sats_usd.TaProof.Leaf.parse_commitment
    sats_usd.TaProof.Leaf.parse_commitment_proof sats_usd.TaProof.Leaf.parse_genesis
    sats_usd.TaProof.Leaf.parse_taproot_proof sats_usd.TaProof.Leaf.split_committed_leaf_bytes
    sats_usd.TaProof.Leaf.split_leaf sats_usd.TaProof.Leaf.u32_le
    sats_usd.TaProof.Leaf.with_prev_witness sats_usd.TaProof.Leaf.without_split
    sats_usd.TaProof.Lineage.follows sats_usd.TaProof.Lineage.lineage_from
    sats_usd.TaProof.Lineage.prev_outpoint sats_usd.TaProof.Lineage.verify_lineage
    sats_usd.TaProof.Mssmt.bit_lsb sats_usd.TaProof.Mssmt.branch sats_usd.TaProof.Mssmt.empty_node
    sats_usd.TaProof.Mssmt.leaf sats_usd.TaProof.Mssmt.parse_compressed_proof
    sats_usd.TaProof.Mssmt.proof_root sats_usd.TaProof.Mssmt.read_nodes
    sats_usd.TaProof.Mssmt.spread sats_usd.TaProof.Mssmt.walk_up sats_usd.TaProof.Tlv.bigsize_exact
    sats_usd.TaProof.Tlv.find_record sats_usd.TaProof.Tlv.get_field sats_usd.TaProof.Tlv.parse_tlv
    sats_usd.TaProof.Tlv.tlv_records sats_usd.Redeem.Lock.apply_redeem_lock
    sats_usd.Redeem.check_intent_lock_binding sats_usd.Derive.redeem_intent_hash
    sats_usd.Crypto.chunks_31 sats_usd.Crypto.fold_limbs sats_usd.Crypto.fr_from_be_bytes
    sats_usd.Crypto.fr_to_be_bytes sats_usd.Crypto.hash_bytes sats_usd.Crypto.poseidon2
    sats_usd.Derive.lock_record_hash sats_usd.Derive.lock_tweak sats_usd.Transition.fe_scalar
    sats_usd.Transition.fe_split sats_usd.Transition.fold_fields sats_usd.Transition.next_state
    sats_usd.Transition.state_field_elements sats_usd.Transition.state_root_hash
    sats_usd.Spv.verify_payout_confirmation sats_usd.Spv.block_hash sats_usd.Spv.dsha256
    sats_usd.Spv.pow_ok sats_usd.Spv.target_from_nbits sats_usd.Spv.from_le_bytes
    sats_usd.Spv.merkle_root_from_proof sats_usd.Spv.merkle_root_field
    sats_usd.Spv.legacy_tx_input_outpoint sats_usd.Spv.read_varint sats_usd.Spv.find_outpoint
    sats_usd.Spv.payout_headers sats_usd.Spv.prev_block_hash sats_usd.Redeem.apply_lock_refund
    sats_usd.Crypto.is_valid_xonly sats_usd.Crypto.nums_from sats_usd.Crypto.derive_nums_key
    sats_usd.Crypto.protocol_burn_internal_key sats_usd.Crypto.protocol_burn_tweak
    sats_usd.Crypto.protocol_sink_script_key sats_usd.Claim.Burn.check_burn_proof_binding
    sats_usd.Claim.Burn.burn_checks sats_usd.Claim.Batch.check_paid sats_usd.Claim.Batch.is_operator
    sats_usd.Derive.redemption_nullifier sats_usd.Claim.Submit.start
own_batch = rw (still_active, moved_on) refl

redeem_batch_spends_example :
    ended.consumed_root ≡ root ⦃c = flat⦄ (set_tree ⦃c = flat⦄ set_member (sevens ∷ key 1 ∷ []))
unfolding start sats_usd.Derive.lock_record_hash sats_usd.Derive.redemption_nullifier
    sats_usd.Crypto.tagged_hash sats_usd.Crypto.sha256
redeem_batch_spends_example =
    (redeem_batch_spends ⦃c = flat⦄ ⦃bitcoin = one_output⦄ flat_field flat_free
      (λ b. key-IsKey 7 (omega arith)) listed (key 5) 110 6000000000000 (start ⦃c = flat⦄ listed)
      ended (own_proofs ∷ []) (key 1 ∷ []) (key 1 ∷ []) own_batch (key-IsKey 1 (omega arith), tt)
      (key-IsKey 1 (omega arith), tt) (refl, tt) (refl, tt) refl refl).0
