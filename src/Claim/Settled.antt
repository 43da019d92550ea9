-- ===== src/Claim/Settled.antt =====
-- The books that the accounting of a batch gives.

use mathlib.Core.Path.{subst}
use mathlib.Core.Logic.{ite, if_neg}
use sats_usd.Base.{
  ℕ, ◌+◌, ◌^◌, ◌<◌, ◌≡◌, ap, sym, ◌∙◌, some, Result, ok, err, ensure, ok_or, run, ensure-true,
  ok_or-some, bind_ok, came, arith, ◌==◌, ==_iff, checked_add, checked_sub, bytes_eq,
}
use sats_usd.Crypto.{Crypto, batch_root_be}
use sats_usd.Derive.{claim_id}
use sats_usd.Smt.{verify_exclusion, root_after_update}
use sats_usd.Transition.{tier_fields}
use sats_usd.Types.{StateRoot, StateRoot-discrete}
use sats_usd.Claim.{
  ReserveClaimWitness, overflow, reimbursement_mismatch, redemption_batch_root_mismatch,
  live_da_root_mismatch, claim_id_mismatch, duplicate_claim, live_da_root_for_claim,
}
use sats_usd.Claim.Batch.{Running}
use sats_usd.Claim.Submit.{as_u64, claim_state, settle_batch}

exact_as_u64 : (v a : ℕ) → as_u64 v ≡ some a → a ≡ v
exact_as_u64 v a h = ground arith

exact_sub : (a b d : ℕ) → checked_sub a b ≡ some d → d + b ≡ a
exact_sub a b d h = ground arith

exact_add : (a b s : ℕ) → checked_add a b ≡ some s → (s ≡ a + b) × (s < 2 ^ 64)
exact_add a b s h = ground arith

refused :
    {E : Type 0} {A : Type 0} {x : E} {u : Unit {0}}
    → ◌≡◌ {A = Result E (Unit {0})} (err x) (ok u)
    → A
refused h = absurd (cc)

pub same_state :
    {E : Type 0} (x : E) (new expected : StateRoot) (u : Unit {0})
    → ◌≡◌ {A = Result E (Unit {0})} (ite (StateRoot-discrete new expected) (ok tt) (err x)) (ok u)
    → new ≡ expected
same_state x new expected u h = elim (StateRoot-discrete new expected) [
  | yes same ↦ same
  | no other ↦ refused (sym (if_neg (StateRoot-discrete new expected) other _ _) ∙ h)
]

module _ ⦃c : Crypto⦄ where
  claim_state_books :
      (prev expected : StateRoot) (w : ReserveClaimWitness) (price : ℕ) (st : Running)
      (gross supply reserved : ℕ)
      → claim_state prev w price st gross supply reserved ≡ ok expected
      → (expected.sat_usd_supply_atoms ≡ supply)
        × (expected.reserved_pending_claim_sats ≡ reserved)
        × (expected.reserve_btc_sats ≡ prev.reserve_btc_sats)
        × (expected.lock_consumed_root ≡ st.consumed_root)
        × (expected.redemption_nullifier_root ≡ st.nullifier_root)
        × (expected.latest_oracle_price_e8 ≡ price)
  unfolding claim_state
  claim_state_books prev expected w price st gross supply reserved e =
      let claim = w.claim in
      let id = claim_id claim in
      let da = live_da_root_for_claim w.redemptions w.oracle_messages in
      elim (bind_ok
        (ensure (bytes_eq claim.redemption_batch_root (batch_root_be st.leaves))
          redemption_batch_root_mismatch)
        _ e) [
          | came _ _ e1 ↦
              elim (bind_ok (ensure (bytes_eq claim.live_da_root da) live_da_root_mismatch) _ e1) [
                | came _ _ e2 ↦
                    elim (bind_ok (ensure (bytes_eq claim.claim_id id) claim_id_mismatch) _ e2) [
                      | came _ _ e3 ↦
                          elim (bind_ok
                            (ensure
                              (verify_exclusion prev.pending_claim_root id
                                w.pending_claim_exclusion_proof)
                              duplicate_claim)
                            _ e3) [
                              | came _ _ e4 ↦
                                  elim (bind_ok
                                    (run (tier_fields prev.reserve_btc_sats supply price)) _ e4) [
                                      | came (ratio, tier) _ e5 ↦
                                          elim (bind_ok
                                            (run (
                                              root_after_update id _
                                                w.pending_claim_exclusion_proof))
                                            _ e5) [
                                              | came pending _ e6 ↦ (
                                                ground arith,
                                                ground arith,
                                                ground arith,
                                                ground arith,
                                                ground arith,
                                                ground arith,
                                              )
                                            ]
                                    ]
                            ]
                    ]
              ]
        ]

  -- The books that the accounting of a batch gives.
  pub settle_batch_books :
      (prev expected : StateRoot) (w : ReserveClaimWitness) (price : ℕ) (st : Running)
      → settle_batch prev w price st ≡ ok expected
      → (expected.sat_usd_supply_atoms + st.total_amount ≡ prev.sat_usd_supply_atoms)
        × (expected.reserved_pending_claim_sats ≡ prev.reserved_pending_claim_sats + st.total_gross)
        × (w.claim.reimbursement_sats ≡ st.total_gross)
        × (expected.reserve_btc_sats ≡ prev.reserve_btc_sats)
        × (expected.lock_consumed_root ≡ st.consumed_root)
        × (expected.redemption_nullifier_root ≡ st.nullifier_root)
        × (expected.latest_oracle_price_e8 ≡ price)
        × (expected.reserved_pending_claim_sats < 2 ^ 64)
  unfolding settle_batch
  settle_batch_books prev expected w price st e =
      let claim = w.claim in
      elim (bind_ok (ok_or (as_u64 st.total_amount) overflow) _ e) [
        | came amount h1 e1 ↦ elim (bind_ok (ok_or (as_u64 st.total_gross) overflow) _ e1) [
          | came gross h2 e2 ↦
              elim (bind_ok (ok_or (checked_sub prev.sat_usd_supply_atoms amount) overflow) _ e2) [
                | came supply h3 e3 ↦
                    elim (bind_ok
                      (ok_or (checked_add prev.reserved_pending_claim_sats gross) overflow) _ e3) [
                        | came reserved h4 e4 ↦
                            elim (bind_ok
                              (ensure (claim.reimbursement_sats == gross) reimbursement_mismatch) _
                              e4) [
                                | came _ h5 e5 ↦
                                    let (after, held, kept, consumed, nullified, at_price) =
                                      claim_state_books prev expected w price st gross supply
                                        reserved e5 in
                                    let exact_amount =
                                      exact_as_u64 st.total_amount amount
                                        (ok_or-some _ overflow h1) in
                                    let exact_gross' =
                                      exact_as_u64 st.total_gross gross
                                        (ok_or-some _ overflow h2) in
                                    let left =
                                      exact_sub prev.sat_usd_supply_atoms amount supply
                                        (ok_or-some _ overflow h3) in
                                    let (sum, small) =
                                      exact_add prev.reserved_pending_claim_sats gross reserved
                                        (ok_or-some _ overflow h4) in
                                    let reimbursed =
                                      (==_iff claim.reimbursement_sats gross).0
                                        (ensure-true _ reimbursement_mismatch h5) in
                                    (
                                      ap (λ s. s + st.total_amount) after
                                          ∙ ap (λ t. supply + t) (sym exact_amount)
                                          ∙ left,
                                      held
                                          ∙ sum
                                          ∙ ap (λ t. prev.reserved_pending_claim_sats + t)
                                              exact_gross',
                                      reimbursed ∙ exact_gross',
                                      kept,
                                      consumed,
                                      nullified,
                                      at_price,
                                      subst (λ r. r < 2 ^ 64) (sym held) small,
                                    )
                              ]
                      ]
              ]
        ]
      ]
