-- ===== src/TaProof/Anchor.antt =====
-- crates/satusd-ta-proof/src/lib.rs: the Merkle proof of the anchor transaction and
-- `verify_anchor`. The rust-bitcoin library is the parameter `Bitcoin`.
use sats_usd.Base.{
  ℕ, zero, suc, ◌+◌, ◌/◌, List, [], ◌∷◌, Bytes, Bool, Option, Result, ok, ◌>>=◌, ◌>>◌, ensure,
  ok_or, length, take, drop, get_elem?, bytes_eq, ◌==◌, if◌then◌else◌,
}
use sats_usd.Crypto.{Crypto, sha256}
use sats_usd.TaProof.Cursor.{
  ProofError, truncated, trailing_bytes, bad_field_length, bad_anchor_tx, anchor_merkle_mismatch,
  output_index_out_of_range, not_p2tr, cursor_take, cursor_bigsize,
}
use sats_usd.TaProof.Tlv.{Proof, get_field, slice_capacity}
use sats_usd.TaProof.Leaf.{parse_taproot_proof}
use sats_usd.TaProof.Mssmt.{bit_lsb}

-- bitcoin: `consensus::deserialize` of a transaction, `compute_txid` in the internal byte order, the
-- output scripts and `is_p2tr`.
pub record Bitcoin : Type 1 where
  pub Tx : Type 0
  pub deserialize : Bytes → Option Tx
  pub compute_txid : Tx → Bytes
  pub output_scripts : Tx → List Bytes
  pub is_p2tr : Bytes → Bool

pub record TxMerkleProof : Type 0 where
  pub nodes : List Bytes
  pub bits_packed : Bytes

-- The loop over the nodes: `count` of them are left.
unfoldable pub take_nodes : ℕ → Bytes → Result ProofError (List Bytes × Bytes)
take_nodes zero b = ok ([], b)
take_nodes (suc count) b = do
  (node, rest) ← cursor_take 32 b
  (nodes, left) ← take_nodes count rest
  ok (node ∷ nodes, left)

unfoldable pub parse_tx_merkle_proof : Bytes → Result ProofError TxMerkleProof
parse_tx_merkle_proof b = do
  (n, rest) ← cursor_bigsize b
  slice_capacity n
  (nodes, rest') ← take_nodes n rest
  (bits_packed, left) ← cursor_take ((n + 7) / 8) rest'
  ensure (length left == 0) trailing_bytes
  ok (record { nodes = nodes; bits_packed = bits_packed })

pub record AnchorInfo : Type 0 where
  pub txid : Bytes
  pub output_index : ℕ
  pub taproot_output_key : Bytes

module _ ⦃c : Crypto⦄ where
  unfoldable pub dsha256 : List Bytes → Bytes
  dsha256 parts = sha256 (sha256 parts ∷ [])

  -- The loop of `root` from the node `i` on.
  unfoldable pub fold_nodes : Bytes → ℕ → List Bytes → Bytes → Bytes
  fold_nodes bits i [] cur = cur
  fold_nodes bits i (node ∷ nodes) cur =
      fold_nodes bits (i + 1) nodes
        (if bit_lsb bits i then dsha256 (cur ∷ node ∷ []) else dsha256 (node ∷ cur ∷ []))

  -- `TxMerkleProof::root`.
  unfoldable pub merkle_root : TxMerkleProof → Bytes → Bytes
  merkle_root mp txid = fold_nodes mp.bits_packed 0 mp.nodes txid

  module _ ⦃bitcoin : Bitcoin⦄ where
    unfoldable pub verify_anchor : Proof → Result ProofError AnchorInfo
    verify_anchor proof = do
      header ← ok_or (get_field proof 4) truncated
      ensure (length header == 80) bad_field_length
      tx_bytes ← ok_or (get_field proof 6) truncated
      tx ← ok_or (bitcoin.deserialize tx_bytes) bad_anchor_tx
      let txid = bitcoin.compute_txid tx
      mp_bytes ← ok_or (get_field proof 8) truncated
      mp ← parse_tx_merkle_proof mp_bytes
      ensure (bytes_eq (merkle_root mp txid) (take 32 (drop 36 header))) anchor_merkle_mismatch
      tp_bytes ← ok_or (get_field proof 12) truncated
      tp ← parse_taproot_proof tp_bytes
      spk ← ok_or (get_elem? (bitcoin.output_scripts tx) tp.output_index) output_index_out_of_range
      ensure (bitcoin.is_p2tr spk) not_p2tr
      ensure (length spk == 34) bad_field_length
      ok (record {
        txid = txid;
        output_index = tp.output_index;
        taproot_output_key = take 32 (drop 2 spk);
      })
