-- ===== src/Mint/Finalize.antt =====
-- MINT_FINALIZE: what an accepted finalize has checked, and what it changes.
use sats_usd.Base.{
  ℕ, ◌+◌, ◌^◌, ◌≤◌, ◌<◌, ◌≡◌, ◌≢◌, List, Bytes, true, some, ok, err, arith, Eval-cases, inl, inr,
}
use sats_usd.Crypto.{Crypto}
use sats_usd.Derive.{mint_commitment, issuer_position_hash}
use sats_usd.Smt.{verify_inclusion}
use sats_usd.Tier.{collateral_ratio_ppm}
use sats_usd.Tier.Bands.{Covers}
use sats_usd.Transition.{next_state, set_state_tier}
use sats_usd.Types.{IssuerPosition, StateRoot}
use sats_usd.Mint.{
  MintFinalizeWitness, tier_not_healthy, apply_mint_finalize, issuer_after_finalize,
  issuer_in_state, is_active, expect_ratio,
}
use sats_usd.Mint.Backing.{ratio-Covers, match_commitment_ok}

module _ ⦃c : Crypto⦄ (prev new : StateRoot) (issuer : IssuerPosition) (proof : List Bytes)
    (w : MintFinalizeWitness) where
  covers :
      apply_mint_finalize prev issuer proof w ≡ ok new
      → Covers 200 new.reserve_btc_sats new.sat_usd_supply_atoms w.oracle_price_e8
  unfolding apply_mint_finalize issuer_in_state set_state_tier next_state
  covers h =
      elim (Eval-cases (
        expect_ratio (
          collateral_ratio_ppm prev.reserve_btc_sats
            (prev.sat_usd_supply_atoms + w.requested_mint_atoms) w.oracle_price_e8))) [
              | inl e ↦ ground arith
              | inr (cr, e) ↦ ground (
                arith,
                ratio-Covers prev.reserve_btc_sats
                    (prev.sat_usd_supply_atoms + w.requested_mint_atoms) w.oracle_price_e8 cr e,
              )
            ]

  -- An accepted MINT_FINALIZE met an active issuer of the tree whose outstanding commit is the
  -- witness's, six confirmations and a valid proof; it raises the supply by exactly the requested
  -- amount within 64 bits, leaves reserve and reservations, and at the witness's price the reserve
  -- is worth at least twice the new supply.
  pub apply_mint_finalize_backed :
      apply_mint_finalize prev issuer proof w ≡ ok new
      → (verify_inclusion prev.issuer_positions_root issuer.issuer_id
            (issuer_position_hash issuer)
            proof
          ≡ true)
        × (is_active issuer ≡ true)
        × (issuer.pending_mint_commitment
            ≡ some
                (mint_commitment w.requested_mint_atoms w.asset_metadata_commitment w.deposit_txid))
        × (6 ≤ w.mint_anchor_confirmations)
        × (w.mint_proof_ok ≡ true)
        × (new.sat_usd_supply_atoms ≡ prev.sat_usd_supply_atoms + w.requested_mint_atoms)
        × (new.sat_usd_supply_atoms < 2 ^ 64)
        × (new.reserve_btc_sats ≡ prev.reserve_btc_sats)
        × (new.reserved_pending_claim_sats ≡ prev.reserved_pending_claim_sats)
        × Covers 200 new.reserve_btc_sats new.sat_usd_supply_atoms w.oracle_price_e8
  unfolding apply_mint_finalize issuer_in_state set_state_tier next_state
  apply_mint_finalize_backed h = (
    ground arith,
    ground arith,
    ground (
      arith,
      match_commitment_ok issuer.pending_mint_commitment
          (mint_commitment w.requested_mint_atoms w.asset_metadata_commitment w.deposit_txid),
    ),
    ground arith,
    ground arith,
    ground arith,
    ground arith,
    ground arith,
    ground arith,
    covers h,
  )

  -- MINT_FINALIZE never answers tier_not_healthy: the check before it is stricter.
  pub apply_mint_finalize-healthy :
      (cr : ℕ) → apply_mint_finalize prev issuer proof w ≢ err (tier_not_healthy cr)
  unfolding apply_mint_finalize issuer_in_state set_state_tier issuer_after_finalize
  apply_mint_finalize-healthy cr h = ground arith
