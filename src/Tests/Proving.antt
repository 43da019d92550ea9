-- ===== src/Tests/Proving.antt =====
-- A proof file of two steps, each a lone asset in its anchor, over a hash that gives one digest.
use sats_usd.Base.{
  ◌+◌, ◌≡◌, ◌<◌, ◌^◌, refl, List, [], ◌∷◌, ◌++◌, Bytes, ok, some, none, replicate, length, value,
  arith, ◌==◌,
}
use sats_usd.Crypto.{Crypto}
use sats_usd.Encoding.{u8, u32}
use sats_usd.TaProof.Cursor.{write_bigsize}
use sats_usd.TaProof.Tlv.{
  Proof, Records, encode_records, reencode, parse_proof, parse_tlv, tlv_records, parse_proof_file,
  file_magic,
}
use sats_usd.TaProof.Anchor.{Bitcoin, AnchorInfo}
use sats_usd.TaProof.Mssmt.{Node, proof_root, empty_node}
use sats_usd.TaProof.Commitment.{verify_asset_inclusion}
use sats_usd.TaProof.Lineage.{verify_lineage}
use sats_usd.TaProof.Cursor.Numbers.{IsBytes}
use sats_usd.TaProof.Tlv.RoundTrip.{Ascending, reencode-parse_proof, parse_proof-reencode}
use sats_usd.TaProof.Tlv.Fuel.{tlv_records_fuel}
use sats_usd.TaProof.Mssmt.Sums.{sibling_sums, proof_root_sum}
use sats_usd.TaProof.Commitment.Included.{Anchored, Committed, verify_asset_inclusion-Committed}
use sats_usd.TaProof.Lineage.Chain.{Lineage, verify_lineage-Lineage}
use sats_usd.Tests.Registering.{key}
use sats_usd.Tests.Toy.{toy}

abbrev pub flat : Crypto
flat = record toy { sha2 = λ b. replicate 32 7 }

abbrev pub one_output : Bitcoin
one_output = record {
  Tx = Bytes;
  deserialize = λ b. some b;
  compute_txid = λ t. key 3;
  output_scripts = λ t. t ∷ [];
  is_p2tr = λ s. length s == 34;
}

abbrev pub sevens : Bytes
sevens = replicate 32 7

abbrev taproot_script : Bytes
taproot_script = 81 ∷ 32 ∷ sevens

-- The proof of a lone leaf: no explicit node, every sibling empty.
abbrev lone : Bytes
lone = 0 ∷ 0 ∷ replicate 32 255

abbrev leaf_records : Records
leaf_records =
    (0, 1 ∷ [])
    ∷ (2, key 1 ++ (0 ∷ 0 ∷ 0 ∷ 0 ∷ 0 ∷ (key 2 ++ (0 ∷ 0 ∷ 0 ∷ 0 ∷ 0 ∷ []))))
    ∷ (4, 0 ∷ [])
    ∷ (6, 0xfd ∷ 19 ∷ 136 ∷ [])
    ∷ (14, 0 ∷ 0 ∷ [])
    ∷ (16, 2 ∷ sevens)
    ∷ (17, 2 ∷ key 4)
    ∷ []

abbrev commitment_records : Records
commitment_records =
    (1, encode_records ((0, 1 ∷ []) ∷ (2, key 5) ∷ (4, lone) ∷ []))
    ∷ (2, encode_records ((0, 2 ∷ []) ∷ (2, lone) ∷ []))
    ∷ []

abbrev taproot_records : Records
taproot_records = (0, replicate 4 0) ∷ (2, 2 ∷ key 6) ∷ (3, encode_records commitment_records) ∷ []

-- A step that spends the output 0 of `from`.
abbrev pub proof_step : Bytes → Proof
proof_step from = record {
  records =
      (2, from ++ replicate 4 0)
      ∷ (4, replicate 36 0 ++ (key 3 ++ replicate 12 0))
      ∷ (6, taproot_script)
      ∷ (8, 0 ∷ [])
      ∷ (10, encode_records leaf_records)
      ∷ (12, encode_records taproot_records)
      ∷ [];
}

abbrev pub head : AnchorInfo
head = record { txid = key 3; output_index = 0; taproot_output_key = sevens }

included : verify_asset_inclusion ⦃c = flat⦄ ⦃bitcoin = one_output⦄ (proof_step (key 0)) ≡ ok head
unfolding verify_asset_inclusion sats_usd.TaProof.Anchor.verify_anchor
    sats_usd.TaProof.Tlv.get_field sats_usd.TaProof.Tlv.find_record
    sats_usd.TaProof.Anchor.parse_tx_merkle_proof sats_usd.TaProof.Cursor.cursor_bigsize
    sats_usd.TaProof.Cursor.cursor_take sats_usd.TaProof.Anchor.take_nodes
    sats_usd.TaProof.Anchor.merkle_root sats_usd.TaProof.Anchor.fold_nodes
    sats_usd.TaProof.Leaf.parse_taproot_proof parse_tlv tlv_records encode_records write_bigsize u8
    sats_usd.TaProof.Leaf.exact mathlib.Core.List.flatten sats_usd.Crypto.bip341_hash
    sats_usd.Crypto.sha256 sats_usd.Crypto.tap_tweak sats_usd.Crypto.tap_tweak_data
    sats_usd.Derive.bytes_leb sats_usd.Encoding.be_bytes sats_usd.Encoding.u16 u32
    sats_usd.Encoding.u64 sats_usd.TaProof.Anchor.dsha256
    sats_usd.TaProof.Commitment.asset_commitment_key sats_usd.TaProof.Commitment.leaf_value
    sats_usd.TaProof.Commitment.reconstruct_output_key sats_usd.TaProof.Commitment.sibling_tap_hash
    sats_usd.TaProof.Commitment.ta_leaf_hash sats_usd.TaProof.Commitment.tap_branch_hash
    sats_usd.TaProof.Commitment.tapscript_root sats_usd.TaProof.Cursor.cursor_u32_be
    sats_usd.TaProof.Cursor.cursor_wide sats_usd.TaProof.Cursor.from_be_bytes
    sats_usd.TaProof.Leaf.asset_id sats_usd.TaProof.Leaf.asset_leaf sats_usd.TaProof.Leaf.has_record
    sats_usd.TaProof.Leaf.parse_asset_leaf sats_usd.TaProof.Leaf.parse_commitment
    sats_usd.TaProof.Leaf.parse_commitment_proof sats_usd.TaProof.Leaf.parse_genesis
    sats_usd.TaProof.Leaf.split_committed_leaf_bytes sats_usd.TaProof.Leaf.split_leaf
    sats_usd.TaProof.Leaf.u32_le sats_usd.TaProof.Leaf.with_prev_witness
    sats_usd.TaProof.Leaf.without_split sats_usd.TaProof.Mssmt.bit_lsb sats_usd.TaProof.Mssmt.branch
    empty_node sats_usd.TaProof.Mssmt.leaf sats_usd.TaProof.Mssmt.parse_compressed_proof proof_root
    sats_usd.TaProof.Mssmt.read_nodes sats_usd.TaProof.Mssmt.spread sats_usd.TaProof.Mssmt.walk_up
    sats_usd.TaProof.Tlv.bigsize_exact
included = refl

abbrev pub steps : List Proof
steps = proof_step (key 0) ∷ proof_step (key 3) ∷ []

pub lineage_verified : verify_lineage ⦃c = flat⦄ ⦃bitcoin = one_output⦄ steps ≡ ok head
unfolding verify_asset_inclusion sats_usd.TaProof.Anchor.verify_anchor
    sats_usd.TaProof.Tlv.get_field sats_usd.TaProof.Tlv.find_record
    sats_usd.TaProof.Anchor.parse_tx_merkle_proof sats_usd.TaProof.Cursor.cursor_bigsize
    sats_usd.TaProof.Cursor.cursor_take sats_usd.TaProof.Anchor.take_nodes
    sats_usd.TaProof.Anchor.merkle_root sats_usd.TaProof.Anchor.fold_nodes
    sats_usd.TaProof.Leaf.parse_taproot_proof parse_tlv tlv_records encode_records write_bigsize u8
    sats_usd.TaProof.Leaf.exact mathlib.Core.List.flatten sats_usd.Crypto.bip341_hash
    sats_usd.Crypto.sha256 sats_usd.Crypto.tap_tweak sats_usd.Crypto.tap_tweak_data
    sats_usd.Derive.bytes_leb sats_usd.Encoding.be_bytes sats_usd.Encoding.u16 u32
    sats_usd.Encoding.u64 sats_usd.TaProof.Anchor.dsha256
    sats_usd.TaProof.Commitment.asset_commitment_key sats_usd.TaProof.Commitment.leaf_value
    sats_usd.TaProof.Commitment.reconstruct_output_key sats_usd.TaProof.Commitment.sibling_tap_hash
    sats_usd.TaProof.Commitment.ta_leaf_hash sats_usd.TaProof.Commitment.tap_branch_hash
    sats_usd.TaProof.Commitment.tapscript_root sats_usd.TaProof.Cursor.cursor_u32_be
    sats_usd.TaProof.Cursor.cursor_wide sats_usd.TaProof.Cursor.from_be_bytes
    sats_usd.TaProof.Leaf.asset_id sats_usd.TaProof.Leaf.asset_leaf sats_usd.TaProof.Leaf.has_record
    sats_usd.TaProof.Leaf.parse_asset_leaf sats_usd.TaProof.Leaf.parse_commitment
    sats_usd.TaProof.Leaf.parse_commitment_proof sats_usd.TaProof.Leaf.parse_genesis
    sats_usd.TaProof.Leaf.split_committed_leaf_bytes sats_usd.TaProof.Leaf.split_leaf
    sats_usd.TaProof.Leaf.u32_le sats_usd.TaProof.Leaf.with_prev_witness
    sats_usd.TaProof.Leaf.without_split sats_usd.TaProof.Mssmt.bit_lsb sats_usd.TaProof.Mssmt.branch
    empty_node sats_usd.TaProof.Mssmt.leaf sats_usd.TaProof.Mssmt.parse_compressed_proof proof_root
    sats_usd.TaProof.Mssmt.read_nodes sats_usd.TaProof.Mssmt.spread sats_usd.TaProof.Mssmt.walk_up
    sats_usd.TaProof.Tlv.bigsize_exact verify_lineage sats_usd.TaProof.Lineage.lineage_from
    sats_usd.TaProof.Lineage.follows sats_usd.TaProof.Lineage.prev_outpoint
lineage_verified = refl

-- A checksum of 32 sevens behind the length and the bytes of a proof.
abbrev framed : Proof → Bytes
framed p = let blob = reencode p in write_bigsize (length blob) ++ (blob ++ sevens)

abbrev pub steps_file : Bytes
steps_file =
    file_magic
    ++ (replicate 4 0 ++ (2 ∷ (framed (proof_step (key 0)) ++ framed (proof_step (key 3)))))

verify_lineage-Lineage_example : Lineage ⦃c = flat⦄ ⦃bitcoin = one_output⦄ steps head
verify_lineage-Lineage_example =
    (verify_lineage-Lineage ⦃c = flat⦄ ⦃bitcoin = one_output⦄ steps head).0 lineage_verified

verify_asset_inclusion-Committed_example :
    Anchored ⦃c = flat⦄ ⦃bitcoin = one_output⦄ (proof_step (key 0)) head
    × Committed ⦃c = flat⦄ ⦃bitcoin = one_output⦄ (proof_step (key 0)) head
verify_asset_inclusion-Committed_example =
    verify_asset_inclusion-Committed ⦃c = flat⦄ ⦃bitcoin = one_output⦄ (proof_step (key 0)) head
      included

abbrev small : Proof
small = record { records = (0, 1 ∷ []) ∷ (300, 9 ∷ 8 ∷ []) ∷ [] }

abbrev small_bytes : Bytes
small_bytes = 84 ∷ 65 ∷ 80 ∷ 80 ∷ 0 ∷ 1 ∷ 1 ∷ 253 ∷ 1 ∷ 44 ∷ 2 ∷ 9 ∷ 8 ∷ []

small_parsed : parse_proof small_bytes ≡ ok small
unfolding parse_proof parse_tlv tlv_records sats_usd.TaProof.Cursor.cursor_bigsize
    sats_usd.TaProof.Cursor.cursor_take sats_usd.TaProof.Cursor.cursor_wide
    sats_usd.TaProof.Cursor.from_be_bytes
small_parsed = refl

small-IsBytes : IsBytes small_bytes
small-IsBytes = (
  omega arith,
  (
    omega arith,
    (
      omega arith,
      (
        omega arith,
        (
          omega arith,
          (
            omega arith,
            (
              omega arith,
              (
                omega arith,
                (omega arith, (omega arith, (omega arith, (omega arith, (omega arith, tt))))),
              ),
            ),
          ),
        ),
      ),
    ),
  ),
)

small-Ascending : Ascending none small.records
small-Ascending = (refl, omega arith, omega arith, (refl, omega arith, omega arith, tt))

reencode-parse_proof_example : (reencode small ≡ small_bytes) × Ascending none small.records
reencode-parse_proof_example = reencode-parse_proof small_bytes small small-IsBytes small_parsed

parse_proof-reencode_example : parse_proof (reencode small) ≡ ok small
parse_proof-reencode_example = parse_proof-reencode small small-Ascending

tlv_records_fuel_example :
    tlv_records 40 (0 ∷ 1 ∷ 7 ∷ []) none ≡ tlv_records 3 (0 ∷ 1 ∷ 7 ∷ []) none
tlv_records_fuel_example =
    tlv_records_fuel 40 3 (0 ∷ 1 ∷ 7 ∷ []) none (omega arith, (omega arith, (omega arith, tt)))
      (omega arith) (omega arith)

abbrev heavy : List Node
heavy = replicate 256 (record { hash = key 1; sum = 10 })

heavy_root :
    proof_root ⦃c = flat⦄ (key 0) (record { hash = key 2; sum = 5 }) heavy
    ≡ value (record { hash = sevens; sum = 2565 }, sevens, key 1)
unfolding proof_root sats_usd.TaProof.Mssmt.walk_up sats_usd.TaProof.Mssmt.branch
    sats_usd.TaProof.Mssmt.bit_lsb sats_usd.Crypto.sha256 mathlib.Core.List.flatten
heavy_root = refl

proof_root_sum_example : (2565 ≡ 5 + sibling_sums 256 heavy) × (2565 < 2 ^ 64)
proof_root_sum_example =
    proof_root_sum ⦃c = flat⦄ (key 0) (record { hash = key 2; sum = 5 }) heavy
      (record { hash = sevens; sum = 2565 }) sevens (key 1) (omega arith) heavy_root
