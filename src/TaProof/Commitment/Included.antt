-- ===== src/TaProof/Commitment/Included.antt =====
-- What an asset inclusion that is accepted has checked.

use sats_usd.Base.{
  ◌≡◌, Bytes, some, ok, ensure, ok_or, bind_ok, ok_or-some, ensure-true, came, length, take, drop,
  get_elem?, bytes_eq, bytes_eq→eq, true, ap, ◌==◌, ==_iff, arith, ◌∙◌,
}
use sats_usd.Crypto.{Crypto}
use sats_usd.TaProof.Cursor.{
  truncated, bad_field_length, bad_anchor_tx, anchor_merkle_mismatch, output_index_out_of_range,
  not_p2tr, commitment_mismatch,
}
use sats_usd.TaProof.Tlv.{Proof, get_field}
use sats_usd.TaProof.Leaf.{
  AssetLeaf, asset_leaf, TaprootProof, CommitmentProof, parse_taproot_proof, parse_commitment,
}
use sats_usd.TaProof.Anchor.{
  Bitcoin, AnchorInfo, TxMerkleProof, parse_tx_merkle_proof, merkle_root, verify_anchor,
}
use sats_usd.TaProof.Commitment.{reconstruct_output_key, verify_asset_inclusion}

module _ ⦃c : Crypto⦄ ⦃bitcoin : Bitcoin⦄ where
  -- The transaction of the anchor is in the block of the header, and the output that the taproot
  -- proof names is a taproot output with the key.
  pub data Anchored (p : Proof) (a : AnchorInfo) : Type 0 where
    anchored :
        (header tx_bytes mp_bytes tp_bytes spk : Bytes) (tx : bitcoin.Tx) (mp : TxMerkleProof)
        (tp : TaprootProof)
        → get_field p 4 ≡ some header
        → length header ≡ 80
        → get_field p 6 ≡ some tx_bytes
        → bitcoin.deserialize tx_bytes ≡ some tx
        → get_field p 8 ≡ some mp_bytes
        → parse_tx_merkle_proof mp_bytes ≡ ok mp
        → merkle_root mp (bitcoin.compute_txid tx) ≡ take 32 (drop 36 header)
        → get_field p 12 ≡ some tp_bytes
        → parse_taproot_proof tp_bytes ≡ ok tp
        → get_elem? (bitcoin.output_scripts tx) tp.output_index ≡ some spk
        → bitcoin.is_p2tr spk ≡ true
        → length spk ≡ 34
        → record {
          txid = bitcoin.compute_txid tx;
          output_index = tp.output_index;
          taproot_output_key = take 32 (drop 2 spk);
        }
          ≡ a
        → Anchored p a

  -- The asset of the leaf is committed under the key of the anchor.
  pub data Committed (p : Proof) (a : AnchorInfo) : Type 0 where
    committed :
        (asset : AssetLeaf) (leaf_bytes tp_bytes : Bytes) (tp : TaprootProof) (cp : CommitmentProof)
        → asset_leaf p ≡ ok asset
        → get_field p 10 ≡ some leaf_bytes
        → get_field p 12 ≡ some tp_bytes
        → parse_taproot_proof tp_bytes ≡ ok tp
        → parse_commitment tp ≡ ok cp
        → reconstruct_output_key asset leaf_bytes cp tp ≡ ok a.taproot_output_key
        → Committed p a

  verify_anchor-Anchored : (p : Proof) (a : AnchorInfo) → verify_anchor p ≡ ok a → Anchored p a
  unfolding verify_anchor
  verify_anchor-Anchored p a e = elim (bind_ok (ok_or (get_field p 4) truncated) _ e) [
    | came header h1 e1 ↦ elim (bind_ok (ensure (length header == 80) bad_field_length) _ e1) [
      | came _ h2 e2 ↦ elim (bind_ok (ok_or (get_field p 6) truncated) _ e2) [
        | came tx_bytes h3 e3 ↦
            elim (bind_ok (ok_or (bitcoin.deserialize tx_bytes) bad_anchor_tx) _ e3) [
              | came tx h4 e4 ↦ elim (bind_ok (ok_or (get_field p 8) truncated) _ e4) [
                | came mp_bytes h5 e5 ↦ elim (bind_ok (parse_tx_merkle_proof mp_bytes) _ e5) [
                  | came mp h6 e6 ↦
                      elim (bind_ok
                        (ensure
                          (bytes_eq (merkle_root mp (bitcoin.compute_txid tx))
                            (take 32 (drop 36 header)))
                          anchor_merkle_mismatch)
                        _ e6) [
                          | came _ h7 e7 ↦ elim (bind_ok (ok_or (get_field p 12) truncated) _ e7) [
                            | came tp_bytes h8 e8 ↦
                                elim (bind_ok (parse_taproot_proof tp_bytes) _ e8) [
                                  | came tp h9 e9 ↦
                                      let output =
                                        get_elem? (bitcoin.output_scripts tx) tp.output_index in
                                      elim (bind_ok (ok_or output output_index_out_of_range) _ e9) [
                                        | came spk h10 e10 ↦
                                            elim (bind_ok (ensure (bitcoin.is_p2tr spk) not_p2tr) _
                                              e10) [
                                                | came _ h11 e11 ↦
                                                    elim (bind_ok
                                                      (ensure (length spk == 34) bad_field_length) _
                                                      e11) [
                                                        | came _ h12 e12 ↦
                                                            anchored header tx_bytes mp_bytes
                                                            tp_bytes spk tx mp tp
                                                            (ok_or-some _ truncated h1)
                                                            ((==_iff _ _).0
                                                            (ensure-true _ bad_field_length h2))
                                                            (ok_or-some _ truncated h3)
                                                            (ok_or-some _ bad_anchor_tx h4)
                                                            (ok_or-some _ truncated h5) h6
                                                            (bytes_eq→eq _ _ (
                                                            ensure-true _ anchor_merkle_mismatch
                                                            h7))
                                                            (ok_or-some _ truncated h8) h9
                                                            (ok_or-some _ output_index_out_of_range
                                                            h10)
                                                            (ensure-true _ not_p2tr h11)
                                                            ((==_iff _ _).0
                                                            (ensure-true _ bad_field_length h12))
                                                            (ground arith)
                                                      ]
                                              ]
                                      ]
                                ]
                          ]
                        ]
                ]
              ]
            ]
      ]
    ]
  ]

  -- An accepted asset inclusion has its anchor transaction in the block of the header by the
  -- Merkle proof, an output of it at the proof's index that is a 34-byte taproot output, and an
  -- asset leaf whose commitment proofs reconstruct that output's key.
  pub verify_asset_inclusion-Committed :
      (p : Proof) (a : AnchorInfo) → verify_asset_inclusion p ≡ ok a → Anchored p a × Committed p a
  unfolding verify_asset_inclusion
  verify_asset_inclusion-Committed p a e = elim (bind_ok (verify_anchor p) _ e) [
    | came b h1 e1 ↦ elim (bind_ok (asset_leaf p) _ e1) [
      | came asset h2 e2 ↦ elim (bind_ok (ok_or (get_field p 10) truncated) _ e2) [
        | came leaf_bytes h3 e3 ↦ elim (bind_ok (ok_or (get_field p 12) truncated) _ e3) [
          | came tp_bytes h4 e4 ↦ elim (bind_ok (parse_taproot_proof tp_bytes) _ e4) [
            | came tp h5 e5 ↦ elim (bind_ok (parse_commitment tp) _ e5) [
              | came cp h6 e6 ↦
                  elim (bind_ok (reconstruct_output_key asset leaf_bytes cp tp) _ e6) [
                    | came key h7 e7 ↦
                        elim (bind_ok
                          (ensure (bytes_eq key b.taproot_output_key) commitment_mismatch) _ e7) [
                            | came _ h8 e8 ↦
                                let here : b ≡ a = ground arith in
                                let same =
                                  bytes_eq→eq key b.taproot_output_key
                                    (ensure-true _ commitment_mismatch h8) in
                                (
                                  verify_anchor-Anchored p a (h1 ∙ ap ok here),
                                  committed asset leaf_bytes tp_bytes tp cp h2
                                      (ok_or-some _ truncated h3) (ok_or-some _ truncated h4) h5 h6
                                      (h7 ∙ ap ok (same ∙ ap (λ k. k.taproot_output_key) here)),
                                )
                          ]
                  ]
            ]
          ]
        ]
      ]
    ]
  ]
