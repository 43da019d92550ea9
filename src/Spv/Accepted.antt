-- ===== src/Spv/Accepted.antt =====
-- What an accepted Bitcoin deposit proof and an accepted payout proof have shown.
use sats_usd.Base.{
  ℕ, ◌+◌, ◌≤◌, ◌≡◌, ◌↔◌, refl, List, [], ◌∷◌, Bytes, true, some, value, ok, length, bytes_eq→eq,
  eq→bytes_eq, arith, Eval-cases, Option-cases, inl, inr,
}
use sats_usd.Crypto.{Crypto, sha256}
use sats_usd.Types.{BtcDepositConfirmation, BtcPayoutConfirmation}
use sats_usd.Spv.Tx.{reserve_p2wsh_spk, legacy_tx_outputs, legacy_tx_input_outpoint}
use sats_usd.Spv.Chain.{
  dsha256, block_hash, merkle_root_from_proof, prev_block_hash, merkle_root_field, pow_ok,
}
use sats_usd.Spv.Verify.{
  find_output, deposit_headers, payout_headers, verify_deposit_confirmation,
  verify_payout_confirmation,
}

module _ ⦃c : Crypto⦄ where
  -- Each header meets its target and names the one before it, the first the block `prior`.
  abbrev pub IsChain : Bytes → List Bytes → Type 0
  IsChain prior [] = Unit
  IsChain prior (h ∷ headers) =
      (pow_ok h ≡ true) × (prev_block_hash h ≡ prior) × IsChain (block_hash h) headers

  deposit_headers-IsChain :
      (prior : Bytes) (headers : List Bytes)
      → deposit_headers prior headers ≡ ok tt
      → IsChain prior headers
  unfolding deposit_headers
  deposit_headers-IsChain prior [] h = tt
  deposit_headers-IsChain prior (x ∷ headers) h = (
    ground arith,
    ground (arith, bytes_eq→eq (prev_block_hash x) prior),
    deposit_headers-IsChain (block_hash x) headers (ground arith),
  )

  IsChain-deposit_headers :
      (prior : Bytes) (headers : List Bytes)
      → IsChain prior headers
      → deposit_headers prior headers ≡ ok tt
  unfolding deposit_headers
  IsChain-deposit_headers prior [] h = refl
  IsChain-deposit_headers prior (x ∷ headers) (p, e, r) = ground (
    arith,
    p,
    eq→bytes_eq (prev_block_hash x) prior e,
    IsChain-deposit_headers (block_hash x) headers r,
  )

  payout_headers-IsChain :
      (prior : Bytes) (headers : List Bytes)
      → payout_headers prior headers ≡ ok tt
      → IsChain prior headers
  unfolding payout_headers
  payout_headers-IsChain prior [] h = tt
  payout_headers-IsChain prior (x ∷ headers) h = (
    ground arith,
    ground (arith, bytes_eq→eq (prev_block_hash x) prior),
    payout_headers-IsChain (block_hash x) headers (ground arith),
  )

  -- The header loops of the two verifiers, which test work and link in opposite orders, accept the
  -- same chains.
  pub deposit_headers-payout_headers :
      (prior : Bytes) (headers : List Bytes)
      → (deposit_headers prior headers ≡ ok tt) ↔ (payout_headers prior headers ≡ ok tt)
  unfolding payout_headers
  deposit_headers-payout_headers prior headers = (
    λ h. IsChain-payout_headers prior headers (deposit_headers-IsChain prior headers h),
    λ h. IsChain-deposit_headers prior headers (payout_headers-IsChain prior headers h),
  )
    where
      IsChain-payout_headers :
          (prior : Bytes) (headers : List Bytes)
          → IsChain prior headers
          → payout_headers prior headers ≡ ok tt
      IsChain-payout_headers prior [] h = refl
      IsChain-payout_headers prior (x ∷ headers) (p, e, r) = ground (
        arith,
        p,
        eq→bytes_eq (prev_block_hash x) prior e,
        IsChain-payout_headers (block_hash x) headers r,
      )

  -- An accepted deposit has a transaction with the given id whose first output to the committee's
  -- script pays the given sats, a Merkle branch to its block, and above that a chain of headers
  -- that meet their targets, as long as asked for.
  pub verify_deposit_confirmation_shown :
      (d : BtcDepositConfirmation) (txid : Bytes) (sats : ℕ) (pubkeys : List Bytes)
      (threshold depth : ℕ)
      → verify_deposit_confirmation d txid sats pubkeys threshold depth ≡ ok tt
      → (outs : List (ℕ × Bytes)) × (dsha256 d.deposit_tx_legacy ≡ txid)
        × (legacy_tx_outputs d.deposit_tx_legacy ≡ value (some outs))
        × (find_output (reserve_p2wsh_spk pubkeys threshold) outs ≡ some sats)
        × (merkle_root_from_proof txid d.tx_index d.inclusion_merkle_proof
            ≡ merkle_root_field d.inclusion_header)
        × (pow_ok d.inclusion_header ≡ true)
        × (depth ≤ length d.confirmation_headers + 1)
        × IsChain (block_hash d.inclusion_header) d.confirmation_headers
  unfolding verify_deposit_confirmation
  verify_deposit_confirmation_shown d txid sats pubkeys threshold depth h =
      elim (Eval-cases (legacy_tx_outputs d.deposit_tx_legacy)) [
        | inl e ↦ absurd (ground arith)
        | inr (parsed, e) ↦ elim (Option-cases parsed) [
          | inl n ↦ absurd (ground arith)
          | inr (outs, n) ↦
              elim (Option-cases (find_output (reserve_p2wsh_spk pubkeys threshold) outs)) [
                | inl m ↦ absurd (ground arith)
                | inr (paid, m) ↦
                    let at : block_hash d.inclusion_header ≡ d.inclusion_block_hash =
                      ground (
                        arith,
                        bytes_eq→eq (block_hash d.inclusion_header) d.inclusion_block_hash,
                      ) in
                    (
                      outs,
                      ground (arith, bytes_eq→eq (dsha256 d.deposit_tx_legacy) txid),
                      ground arith,
                      ground arith,
                      ground (
                        arith,
                        bytes_eq→eq
                            (merkle_root_from_proof txid d.tx_index d.inclusion_merkle_proof)
                            (merkle_root_field d.inclusion_header),
                      ),
                      ground arith,
                      ground arith,
                      rw at (
                          deposit_headers-IsChain d.inclusion_block_hash d.confirmation_headers
                            (ground arith)),
                    )
              ]
        ]
      ]

  -- An accepted payout shows the preimage, the HTLC and a claim each by a Merkle branch to a
  -- block, the claim in no earlier block and spending that HTLC output, and a chain of headers
  -- above the claim.
  pub verify_payout_confirmation_shown :
      (d : BtcPayoutConfirmation) (payment_hash : Bytes) (depth tip : ℕ)
      → verify_payout_confirmation d payment_hash depth tip ≡ ok tt
      → (sha256 (d.revealed_preimage ∷ []) ≡ payment_hash)
        × (merkle_root_from_proof d.btc_htlc_txid d.htlc_tx_index d.htlc_inclusion_merkle_proof
            ≡ merkle_root_field d.htlc_inclusion_header)
        × (merkle_root_from_proof d.claim_spend_txid d.claim_tx_index d.claim_inclusion_merkle_proof
            ≡ merkle_root_field d.claim_inclusion_header)
        × (dsha256 d.claim_tx_legacy ≡ d.claim_spend_txid)
        × (legacy_tx_input_outpoint d.claim_tx_legacy d.claim_spend_input_index
            ≡ some (d.btc_htlc_txid, d.btc_htlc_vout))
        × (d.htlc_inclusion_block_height ≤ d.claim_inclusion_block_height)
        × (depth ≤ length d.confirmation_headers)
        × IsChain (block_hash d.claim_inclusion_header) d.confirmation_headers
  unfolding verify_payout_confirmation
  verify_payout_confirmation_shown d payment_hash depth tip h =
      elim (Option-cases (legacy_tx_input_outpoint d.claim_tx_legacy d.claim_spend_input_index)) [
        | inl e ↦ absurd (ground arith)
        | inr ((in_txid, in_vout), e) ↦
            let at : block_hash d.claim_inclusion_header ≡ d.claim_inclusion_block_hash = ground (
              arith,
              bytes_eq→eq (block_hash d.claim_inclusion_header) d.claim_inclusion_block_hash,
            ) in
            (
              ground (arith, bytes_eq→eq (sha256 (d.revealed_preimage ∷ [])) payment_hash),
              ground (
                arith,
                bytes_eq→eq
                    (merkle_root_from_proof d.btc_htlc_txid d.htlc_tx_index
                      d.htlc_inclusion_merkle_proof)
                    (merkle_root_field d.htlc_inclusion_header),
              ),
              ground (
                arith,
                bytes_eq→eq
                    (merkle_root_from_proof d.claim_spend_txid d.claim_tx_index
                      d.claim_inclusion_merkle_proof)
                    (merkle_root_field d.claim_inclusion_header),
              ),
              ground (arith, bytes_eq→eq (dsha256 d.claim_tx_legacy) d.claim_spend_txid),
              ground (arith, bytes_eq→eq in_txid d.btc_htlc_txid),
              ground arith,
              ground arith,
              rw at (
                  payout_headers-IsChain d.claim_inclusion_block_hash d.confirmation_headers
                    (ground arith)),
            )
      ]
