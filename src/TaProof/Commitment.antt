-- ===== src/TaProof/Commitment.antt =====
-- crates/satusd-ta-proof/src/lib.rs: the output key that an asset is committed under, and
-- `verify_asset_inclusion`.
pub mod Included
use sats_usd.Base.{
  ℕ, List, [], ◌∷◌, ◌++◌, Bytes, Option, none, some, Result, ok, err, panic, ◌>>=◌, ◌>>◌, ensure,
  ok_or, run, length, take, drop, bytes_eq, ◌==◌, if◌then◌else◌,
}
use sats_usd.Crypto.{Crypto, sha256, bip341_hash, tap_tweak}
use sats_usd.Derive.{bytes_leb}
use sats_usd.Domain.{codes}
use sats_usd.Encoding.{u64}
use sats_usd.TaProof.Cursor.{
  ProofError, truncated, bad_field_length, commitment_mismatch, unsupported_tap_version,
  bad_tap_sibling,
}
use sats_usd.TaProof.Tlv.{Proof, get_field}
use sats_usd.TaProof.Leaf.{
  AssetLeaf, Genesis, asset_id, asset_leaf, TaprootProof, CommitmentProof, parse_taproot_proof,
  parse_commitment, split_committed_leaf_bytes,
}
use sats_usd.TaProof.Mssmt.{Node, leaf, parse_compressed_proof, proof_root}
use sats_usd.TaProof.Anchor.{Bitcoin, AnchorInfo, verify_anchor}

module _ ⦃c : Crypto⦄ where
  unfoldable pub tap_branch_hash : Bytes → Bytes → Bytes
  tap_branch_hash a b = bip341_hash (codes "TapBranch") (if bytes_leb a b then a ++ b else b ++ a)

  unfoldable pub sibling_tap_hash : Bytes → Result ProofError Bytes
  sibling_tap_hash [] = err bad_tap_sibling
  sibling_tap_hash (ty ∷ preimage) =
      if ty == 0
      then ok (bip341_hash (codes "TapLeaf") preimage)
      else if ty == 1
      then if length preimage == 64
        then ok (tap_branch_hash (take 32 preimage) (drop 32 preimage))
        else err bad_tap_sibling
      else err bad_tap_sibling

  -- The key of the asset in its `AssetCommitment`.
  unfoldable pub asset_commitment_key : AssetLeaf → Bytes
  asset_commitment_key asset =
      let xonly = take 32 (drop 1 asset.script_key) in
      elim asset.group_key [
        | none ↦ sha256 (xonly ∷ [])
        | some _ ↦ sha256 (asset_id asset.genesis ∷ xonly ∷ [])
      ]

  -- `stripped.as_deref().unwrap_or(asset_leaf_bytes)`.
  unfoldable pub leaf_value : Bytes → Bytes
  leaf_value asset_leaf_bytes = elim (split_committed_leaf_bytes asset_leaf_bytes) [
    | none ↦ asset_leaf_bytes
    | some stripped ↦ stripped
  ]

  -- The V2 tapscript leaf: its TapLeaf preimage and hash.
  unfoldable pub ta_leaf_hash : Node → Bytes
  ta_leaf_hash outer =
      let script =
        sha256 (codes "taproot-assets:194243" ∷ []) ++ (2 ∷ (outer.hash ++ u64 outer.sum)) in
      bip341_hash (codes "TapLeaf") (0xc0 ∷ 73 ∷ script)

  unfoldable pub tapscript_root : Bytes → Option Bytes → Result ProofError Bytes
  tapscript_root leaf_hash none = ok leaf_hash
  tapscript_root leaf_hash (some sib) = do
    h ← sibling_tap_hash sib
    ok (tap_branch_hash leaf_hash h)

  unfoldable pub reconstruct_output_key :
      AssetLeaf → Bytes → CommitmentProof → TaprootProof → Result ProofError Bytes
  reconstruct_output_key asset asset_leaf_bytes cp taproot = do
    ensure (length taproot.internal_key == 33) bad_field_length
    let id = cp.asset_proof.asset_id
    ensure (length id == 32) bad_field_length
    ensure (length asset.script_key == 33) bad_field_length
    inner_sib ← ok_or (parse_compressed_proof cp.asset_proof.mssmt_proof) bad_field_length
    (inner, l, r) ← run (
        proof_root (asset_commitment_key asset) (leaf (leaf_value asset_leaf_bytes) asset.amount)
          inner_sib)
    let ac_root = sha256 (id ∷ l ∷ r ∷ u64 inner.sum ∷ [])
    let tcl_value = cp.asset_proof.version ∷ (ac_root ++ u64 inner.sum)
    outer_sib ← ok_or (parse_compressed_proof cp.taproot_asset_proof.mssmt_proof) bad_field_length
    (outer, _, _) ← run (proof_root id (leaf tcl_value inner.sum) outer_sib)
    ensure (cp.taproot_asset_proof.version == 2) unsupported_tap_version
    root ← tapscript_root (ta_leaf_hash outer) cp.tap_sibling
    run (tap_tweak (take 32 (drop 1 taproot.internal_key)) root)

  module _ ⦃bitcoin : Bitcoin⦄ where
    unfoldable pub verify_asset_inclusion : Proof → Result ProofError AnchorInfo
    verify_asset_inclusion proof = do
      anchor ← verify_anchor proof
      asset ← asset_leaf proof
      asset_leaf_bytes ← ok_or (get_field proof 10) truncated
      tp_bytes ← ok_or (get_field proof 12) truncated
      taproot ← parse_taproot_proof tp_bytes
      cp ← parse_commitment taproot
      key ← reconstruct_output_key asset asset_leaf_bytes cp taproot
      ensure (bytes_eq key anchor.taproot_output_key) commitment_mismatch
      ok anchor
