-- ===== src/Claim/Accounting.antt =====
-- The books of a reserve claim: supply, reservation and reimbursement.

use mathlib.Core.Path.{subst}
use sats_usd.Base.{
  ℕ, ◌+◌, ◌*◌, ◌^◌, ◌≤◌, ◌<◌, ◌≡◌, ap, sym, ◌∙◌, not, ok, ensure, bind_ok, came, arith,
}
use sats_usd.Crypto.{Crypto}
use sats_usd.TaProof.Anchor.{Bitcoin}
use sats_usd.Types.{StateRoot}
use sats_usd.Claim.{ReserveClaimWitness, empty_batch, post_state_mismatch}
use sats_usd.Claim.Batch.{Running, redeem_batch}
use sats_usd.Claim.Submit.{
  no_redemptions, check_linkage, batch_price, start, settle_batch, verify_reserve_claim_finalize,
}
use sats_usd.Claim.Totals.{atoms_of, gross_of, redeem_batch_totals}
use sats_usd.Claim.Settled.{same_state, settle_batch_books}

module _ ⦃c : Crypto⦄ ⦃bitcoin : Bitcoin⦄ where
  -- What an accepted claim has gone through.
  pub data Accepted (prev new : StateRoot) (w : ReserveClaimWitness) : Type 0 where
    accepted :
        (price : ℕ) (st : Running)
        → check_linkage prev new w.claim ≡ ok tt
        → batch_price prev w ≡ ok price
        → redeem_batch prev w.claim.operator_id w.btc_tip_height price (start prev) w.redemptions
          ≡ ok st
        → settle_batch prev w price st ≡ ok new
        → Accepted prev new w

  pub verify_reserve_claim_finalize-Accepted :
      (prev new : StateRoot) (w : ReserveClaimWitness)
      → verify_reserve_claim_finalize prev new w ≡ ok tt
      → Accepted prev new w
  unfolding verify_reserve_claim_finalize
  verify_reserve_claim_finalize-Accepted prev new w e =
      elim (bind_ok (check_linkage prev new w.claim) _ e) [
        | came tt h1 e1 ↦ elim (bind_ok (batch_price prev w) _ e1) [
          | came price h2 e2 ↦
              elim (bind_ok (ensure (not (no_redemptions w.redemptions)) empty_batch) _ e2) [
                | came _ _ e3 ↦
                    elim (bind_ok
                      (redeem_batch prev w.claim.operator_id w.btc_tip_height price (start prev)
                        w.redemptions)
                      _ e3) [
                        | came st h4 e4 ↦ elim (bind_ok (settle_batch prev w price st) _ e4) [
                          | came expected h5 e5 ↦
                              let same = same_state post_state_mismatch new expected tt e5 in
                              accepted price st h1 h2 h4 (h5 ∙ ap ok (sym same))
                        ]
                      ]
              ]
        ]
      ]

  -- An accepted reserve claim lowers the supply by exactly the atoms of its redemptions, is
  -- reimbursed the sum of their gross sats at the new state's oracle price, raises the
  -- reservations by that reimbursement within 64 bits and leaves the reserve; at that price, of
  -- 10^-8 dollars a bitcoin, the reimbursement is worth at most the atoms redeemed, of a hundredth
  -- of a dollar each.
  pub verify_reserve_claim_finalize_books :
      (prev new : StateRoot) (w : ReserveClaimWitness)
      → verify_reserve_claim_finalize prev new w ≡ ok tt
      → (new.sat_usd_supply_atoms + atoms_of w.redemptions ≡ prev.sat_usd_supply_atoms)
        × (w.claim.reimbursement_sats ≡ gross_of new.latest_oracle_price_e8 w.redemptions)
        × (new.reserved_pending_claim_sats
            ≡ prev.reserved_pending_claim_sats + w.claim.reimbursement_sats)
        × (new.reserved_pending_claim_sats < 2 ^ 64)
        × (new.reserve_btc_sats ≡ prev.reserve_btc_sats)
        × (w.claim.reimbursement_sats * new.latest_oracle_price_e8
            ≤ atoms_of w.redemptions * 10 ^ 14)
  unfolding start
  verify_reserve_claim_finalize_books prev new w e =
      elim (verify_reserve_claim_finalize-Accepted prev new w e) [
        | accepted price st _ _ batch settled ↦
            let (amount, gross, worth) =
              redeem_batch_totals prev w.claim.operator_id w.btc_tip_height price (start prev) st
                w.redemptions batch in
            let (supply, reserved, reimbursed, kept, _, _, at_price, small) =
              settle_batch_books prev new w price st settled in
            let all_gross : w.claim.reimbursement_sats ≡ gross_of price w.redemptions =
              omega (arith, reimbursed, gross) in
            (
              omega (arith, supply, amount),
              all_gross ∙ ap (λ p. gross_of p w.redemptions) (sym at_price),
              omega (arith, reserved, reimbursed),
              small,
              kept,
              subst (λ k. k * new.latest_oracle_price_e8 ≤ atoms_of w.redemptions * 10 ^ 14)
                  (sym all_gross)
                  (subst (λ p. gross_of price w.redemptions * p ≤ atoms_of w.redemptions * 10 ^ 14)
                    (sym at_price) worth),
            )
      ]
