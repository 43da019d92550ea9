-- ===== src/Tests/Redeeming.antt =====
-- A lock behind a lineage of two steps.
use sats_usd.Base.{◌≡◌, refl, [], ok, some}
use sats_usd.Crypto.{Crypto}
use sats_usd.Smt.{fold_to_root, leaf_hash}
use sats_usd.TaProof.Anchor.{Bitcoin}
use sats_usd.Types.{StateRoot, RedeemIntent, LockRecord}
use sats_usd.Redeem.{set_member}
use sats_usd.Redeem.Lock.{RedeemLockWitness, apply_redeem_lock, check_lineage_lock_binding}
use sats_usd.Redeem.Lock.Bound.{Backed, apply_redeem_lock-Backed}
use sats_usd.Crypto.{batch_root_be}
use sats_usd.Transition.{state_root_hash, tier_fields}
use sats_usd.Smt.{
  SparseMerkleTree, root, prove, insert, verify_inclusion, verify_exclusion, root_after_update,
}
use sats_usd.Tests.Registering.{key, siblings, root_over, genesis, state_of}
use sats_usd.Tests.Proving.{flat, one_output, sevens, steps_file}

abbrev pub intent : RedeemIntent
intent = record {
  version = 1;
  network = 1;
  redemption_id = key 1;
  satusd_asset_family_id = sevens;
  amount_satusd_atoms = 5000;
  user_btc_refund_pubkey = key 2;
  user_btc_claim_pubkey = key 3;
  user_asset_refund_key = key 4;
  operator_id = some (key 5);
  mode = 0;
  payment_hash = sevens;
  asset_lock_csv_delta = 168;
  btc_htlc_csv_delta = 144;
  max_operator_fee_bps = 50;
  l1_anchor_height = 100;
  l1_anchor_hash = key 7;
  expiry_height = 500;
  nonce = key 9;
}

abbrev pub lock : LockRecord
lock = record {
  lock_record_version = 1;
  redeem_intent_hash = sevens;
  lock_anchor_outpoint = record { txid = key 3; vout = 0 };
  lock_anchor_txid = key 3;
  lock_script_key = sevens;
  lock_amount_atoms = 5000;
  asset_family_id = sevens;
  asset_lock_csv_delta = 168;
  payment_hash = sevens;
  lineage_proof_hash = sevens;
  lineage_verified_by = [];
  anchor_inclusion_height = 101;
}

abbrev pub witness : RedeemLockWitness
witness = record {
  redeem_intent = intent;
  lock_record = lock;
  lock_exclusion_proof = siblings;
  lineage_proof = steps_file;
}

abbrev pub before : StateRoot
before = record genesis { satusd_asset_family_id = sevens; lock_record_root = root_over sevens [] }

abbrev pub locked : StateRoot
locked = state_of (apply_redeem_lock ⦃c = flat⦄ ⦃bitcoin = one_output⦄ before witness)

lock_applies : apply_redeem_lock ⦃c = flat⦄ ⦃bitcoin = one_output⦄ before witness ≡ ok locked
unfolding apply_redeem_lock sats_usd.Redeem.check_intent_lock_binding
    sats_usd.Derive.redeem_intent_hash sats_usd.Crypto.tagged_hash sats_usd.Crypto.sha256
    sats_usd.Crypto.tap_tweak check_lineage_lock_binding sats_usd.TaProof.Tlv.parse_proof_file
    sats_usd.TaProof.Cursor.cursor_take sats_usd.TaProof.Cursor.write_bigsize
    sats_usd.TaProof.Tlv.reencode sats_usd.TaProof.Tlv.encode_records sats_usd.Encoding.u8
    sats_usd.Encoding.u16 sats_usd.TaProof.Cursor.cursor_u32_be
    sats_usd.TaProof.Cursor.cursor_bigsize sats_usd.TaProof.Tlv.file_proofs
    sats_usd.TaProof.Cursor.cursor_wide sats_usd.TaProof.Cursor.from_be_bytes
    sats_usd.TaProof.Tlv.parsed sats_usd.TaProof.Tlv.parse_all sats_usd.TaProof.Tlv.parse_proof
    sats_usd.TaProof.Tlv.parse_tlv sats_usd.TaProof.Tlv.tlv_records
    sats_usd.TaProof.Lineage.verify_lineage sats_usd.TaProof.Lineage.lineage_from
    sats_usd.TaProof.Commitment.verify_asset_inclusion sats_usd.TaProof.Anchor.verify_anchor
    sats_usd.TaProof.Tlv.get_field sats_usd.TaProof.Tlv.find_record
    sats_usd.TaProof.Anchor.parse_tx_merkle_proof sats_usd.TaProof.Anchor.take_nodes
    sats_usd.TaProof.Anchor.merkle_root sats_usd.TaProof.Anchor.fold_nodes
    sats_usd.TaProof.Leaf.parse_taproot_proof sats_usd.TaProof.Leaf.exact
    sats_usd.TaProof.Leaf.asset_leaf sats_usd.TaProof.Leaf.parse_asset_leaf
    sats_usd.TaProof.Leaf.parse_genesis sats_usd.TaProof.Tlv.bigsize_exact
    sats_usd.TaProof.Leaf.parse_commitment sats_usd.TaProof.Leaf.parse_commitment_proof
    sats_usd.TaProof.Commitment.reconstruct_output_key sats_usd.TaProof.Mssmt.parse_compressed_proof
    sats_usd.TaProof.Mssmt.read_nodes sats_usd.TaProof.Mssmt.spread sats_usd.TaProof.Mssmt.bit_lsb
    sats_usd.TaProof.Mssmt.proof_root sats_usd.TaProof.Mssmt.walk_up sats_usd.TaProof.Mssmt.branch
    sats_usd.TaProof.Commitment.asset_commitment_key mathlib.Core.List.flatten
    sats_usd.Crypto.bip341_hash sats_usd.Crypto.tap_tweak_data sats_usd.Crypto.chunks_31
    sats_usd.Crypto.fold_limbs sats_usd.Crypto.fr_from_be_bytes sats_usd.Crypto.fr_to_be_bytes
    sats_usd.Crypto.hash_bytes sats_usd.Crypto.poseidon2 sats_usd.Derive.bytes_leb
    sats_usd.Derive.asset_family_id sats_usd.Derive.lineage_proof_hash
    sats_usd.Derive.lock_record_hash sats_usd.Derive.lock_tweak sats_usd.Encoding.be_bytes
    sats_usd.Encoding.u32 sats_usd.Encoding.u64 sats_usd.Redeem.Lock.head_checks
    sats_usd.Redeem.Lock.key_33 sats_usd.Redeem.Lock.last_proof sats_usd.Smt.bit
    sats_usd.Smt.fold_levels sats_usd.Smt.fold_step fold_to_root sats_usd.Smt.folds_to leaf_hash
    sats_usd.Smt.root_after_update sats_usd.Smt.verify_exclusion sats_usd.TaProof.Anchor.dsha256
    sats_usd.TaProof.Commitment.leaf_value sats_usd.TaProof.Commitment.sibling_tap_hash
    sats_usd.TaProof.Commitment.ta_leaf_hash sats_usd.TaProof.Commitment.tap_branch_hash
    sats_usd.TaProof.Commitment.tapscript_root sats_usd.TaProof.Leaf.asset_id
    sats_usd.TaProof.Leaf.has_record sats_usd.TaProof.Leaf.split_committed_leaf_bytes
    sats_usd.TaProof.Leaf.split_leaf sats_usd.TaProof.Leaf.u32_le
    sats_usd.TaProof.Leaf.with_prev_witness sats_usd.TaProof.Leaf.without_split
    sats_usd.TaProof.Lineage.follows sats_usd.TaProof.Lineage.prev_outpoint
    sats_usd.TaProof.Mssmt.empty_node sats_usd.TaProof.Mssmt.leaf sats_usd.Transition.fe_scalar
    sats_usd.Transition.fe_split sats_usd.Transition.fold_fields sats_usd.Transition.next_state
    sats_usd.Transition.state_field_elements state_root_hash
lock_applies = refl

apply_redeem_lock-Backed_example : Backed ⦃c = flat⦄ ⦃bitcoin = one_output⦄ steps_file lock 1
apply_redeem_lock-Backed_example =
    (apply_redeem_lock-Backed ⦃c = flat⦄ ⦃bitcoin = one_output⦄ before locked witness
      lock_applies).0
