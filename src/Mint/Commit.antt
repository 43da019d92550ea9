-- ===== src/Mint/Commit.antt =====
-- MINT_COMMIT: what an accepted commit has checked, and what it changes.
use sats_usd.Base.{
  ℕ, ◌+◌, ◌^◌, ◌<◌, ◌≡◌, ◌≢◌, List, [], Bytes, true, some, none, ok, arith, bytes_eq→eq, Eval-cases,
  inl, inr,
}
use sats_usd.Crypto.{Crypto}
use sats_usd.Derive.{mint_request_sighash, issuer_position_hash, reserve_committee_hash}
use sats_usd.Smt.{verify_inclusion}
use sats_usd.Spv.{verify_deposit_confirmation}
use sats_usd.Tier.{collateral_ratio_ppm}
use sats_usd.Tier.Bands.{Covers}
use sats_usd.Transition.{next_state, set_state_tier, count_signers}
use sats_usd.Transition.Signers.{HasQuorum, count_signers-AreSigners}
use sats_usd.Types.{IssuerPosition, StateRoot}
use sats_usd.Mint.{
  MintCommitWitness, apply_mint_commit, apply_mint_finalize, issuer_after_commit,
  issuer_after_finalize, issuer_in_state, is_active, expect_ratio, count_valid_multisig,
  MintFinalizeWitness,
}
use sats_usd.Mint.Backing.{ratio-Covers, map_deposit_error_ok}
use sats_usd.Mint.Finalize.{apply_mint_finalize_backed}

module _ ⦃c : Crypto⦄ (prev new : StateRoot) (issuer : IssuerPosition) (proof : List Bytes)
    (w : MintCommitWitness) where
  -- An accepted MINT_COMMIT met an active issuer of the tree without an outstanding commit, a
  -- quorum of distinct signers of the request, the committed reserve committee, a deposit to it
  -- that is confirmed on Bitcoin, and a positive request.
  pub apply_mint_commit_checked :
      apply_mint_commit prev issuer proof w ≡ ok new
      → (verify_inclusion prev.issuer_positions_root issuer.issuer_id
            (issuer_position_hash issuer)
            proof
          ≡ true)
        × (is_active issuer ≡ true)
        × (issuer.pending_mint_commitment ≡ none)
        × HasQuorum
            (mint_request_sighash w.issuer_id w.requested_mint_atoms w.deposit_sats w.deposit_txid
              w.asset_metadata_commitment)
            issuer.multisig_pubkeys
            issuer.multisig_threshold
        × (reserve_committee_hash w.reserve_committee_threshold w.reserve_committee_pubkeys
            ≡ prev.reserve_committee_hash)
        × (verify_deposit_confirmation w.deposit_confirmation w.deposit_txid w.deposit_sats
              w.reserve_committee_pubkeys w.reserve_committee_threshold 6
            ≡ ok tt)
        × (0 < w.requested_mint_atoms)
  unfolding apply_mint_commit issuer_in_state count_valid_multisig
  apply_mint_commit_checked h = (
    ground arith,
    ground arith,
    ground arith,
    (
      count_signers
          (mint_request_sighash w.issuer_id w.requested_mint_atoms w.deposit_sats w.deposit_txid
            w.asset_metadata_commitment)
          issuer.multisig_pubkeys w.signatures [] 0,
      ground arith,
      count_signers-AreSigners
          (mint_request_sighash w.issuer_id w.requested_mint_atoms w.deposit_sats w.deposit_txid
            w.asset_metadata_commitment)
          issuer.multisig_pubkeys w.signatures,
    ),
    ground (
      arith,
      bytes_eq→eq (reserve_committee_hash w.reserve_committee_threshold w.reserve_committee_pubkeys)
          prev.reserve_committee_hash,
    ),
    ground (
      arith,
      map_deposit_error_ok (
          verify_deposit_confirmation w.deposit_confirmation w.deposit_txid w.deposit_sats
            w.reserve_committee_pubkeys w.reserve_committee_threshold 6),
    ),
    ground arith,
  )

  -- An accepted MINT_COMMIT adds the deposit to the reserve within 64 bits, mints nothing, and
  -- leaves a reserve worth at least twice the supply that a finalize would reach.
  pub apply_mint_commit_reserve :
      apply_mint_commit prev issuer proof w ≡ ok new
      → (new.reserve_btc_sats ≡ prev.reserve_btc_sats + w.deposit_sats)
        × (new.reserve_btc_sats < 2 ^ 64)
        × (new.sat_usd_supply_atoms ≡ prev.sat_usd_supply_atoms)
        × (new.reserved_pending_claim_sats ≡ prev.reserved_pending_claim_sats)
        × Covers 200 new.reserve_btc_sats
            (new.sat_usd_supply_atoms + w.requested_mint_atoms)
            w.oracle_price_e8
  unfolding apply_mint_commit issuer_in_state set_state_tier next_state
  apply_mint_commit_reserve h =
      elim (Eval-cases (
        expect_ratio (
          collateral_ratio_ppm (prev.reserve_btc_sats + w.deposit_sats)
            (prev.sat_usd_supply_atoms + w.requested_mint_atoms) w.oracle_price_e8))) [
              | inl e ↦ absurd (ground arith)
              | inr (cr, e) ↦ (
                ground arith,
                ground arith,
                ground arith,
                ground arith,
                ground (
                  arith,
                  ratio-Covers (prev.reserve_btc_sats + w.deposit_sats)
                      (prev.sat_usd_supply_atoms + w.requested_mint_atoms) w.oracle_price_e8 cr e,
                ),
              )
            ]

module _ ⦃c : Crypto⦄ (before committed minted : IssuerPosition) (w : MintCommitWitness) where
  -- Where both stages succeed, a commit and its finalize of the same atoms together record the
  -- deposit and the mint in the issuer's position, restore the pending amount and leave no pending
  -- commitment.
  pub issuer_two_phase :
      issuer_after_commit before w ≡ ok committed
      → issuer_after_finalize committed w.requested_mint_atoms ≡ ok minted
      → (minted.reserve_deposits_sats ≡ before.reserve_deposits_sats + w.deposit_sats)
        × (minted.minted_satusd_atoms ≡ before.minted_satusd_atoms + w.requested_mint_atoms)
        × (minted.pending_mint_atoms ≡ before.pending_mint_atoms)
        × (minted.pending_mint_commitment ≡ none)
        × (minted.last_deposit_txid ≡ some w.deposit_txid)
        × (minted.multisig_pubkeys ≡ before.multisig_pubkeys)
  unfolding issuer_after_commit issuer_after_finalize
  issuer_two_phase h k = ground arith

-- No witness finalizes an issuer's position that a finalize has just left.
pub no_second_finalize :
    ⦃c : Crypto⦄ (issuer minted : IssuerPosition) (atoms : ℕ)
    → issuer_after_finalize issuer atoms ≡ ok minted
    → (prev new : StateRoot) (proof : List Bytes) (w : MintFinalizeWitness)
    → apply_mint_finalize prev minted proof w ≢ ok new
unfolding issuer_after_finalize
no_second_finalize issuer minted atoms h prev new proof w k =
    ground (arith, (apply_mint_finalize_backed prev new minted proof w k).2)
