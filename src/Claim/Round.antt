-- ===== src/Claim/Round.antt =====
-- What a round of the loop over the redemptions has checked and changed.
use sats_usd.Base.{
  ℕ, ◌+◌, ◌≤◌, ◌≡◌, refl, ap, sym, ◌∙◌, [], ◌∷◌, ◌++◌, Bytes, Bool, true, false, not, some, ok,
  value, ensure, ok_or, run, run_value, map_err, map_err_ok, ok_or-some, ensure-true, bind_ok, came,
  arith, leb, ◌==◌, ==_iff, bytes_eq, bytes_eq→eq, contains,
}
use sats_usd.Crypto.{Crypto}
use sats_usd.Redeem.{
  finalize_amount_mismatch, finalize_operator_mismatch, set_member, check_intent_lock_binding,
}
use sats_usd.Smt.{root_after_update}
use sats_usd.TaProof.Anchor.{Bitcoin}
use sats_usd.Types.{StateRoot}
use sats_usd.Claim.{
  BatchRedemption, overflow, operator_mismatch, duplicate_in_batch, payout_too_low, redeem,
  checked_u128,
}
use sats_usd.Claim.Burn.{check_burn_proof_binding}
use sats_usd.Claim.Batch.{
  Running, is_operator, gross_sats, max_fee, least_payout, lock_hash, nullifier, check_active,
  check_paid, advance, redeem_one,
}

false_of : (b : Bool) → not b ≡ true → b ≡ false
false_of true h = absurd (cc)
false_of false h = refl

pub exact_u128 : (v a : ℕ) → checked_u128 v ≡ some a → a ≡ v
exact_u128 v a h = ground arith

module _ ⦃c : Crypto⦄ where
  data Advanced (price : ℕ) (st : Running) (r : BatchRedemption) (next : Running) : Type 0 where
    advanced :
        (gross fee : ℕ)
        → gross_sats r.lock_record.lock_amount_atoms price ≡ ok gross
        → max_fee gross r.redeem_intent.max_operator_fee_bps ≡ ok fee
        → least_payout gross fee ≤ r.payout_confirmation.htlc_output_value_sats
        → next.total_amount ≡ st.total_amount + r.redeem_intent.amount_satusd_atoms
        → next.total_gross ≡ st.total_gross + gross
        → root_after_update (lock_hash r) set_member r.consumed_exclusion_proof
          ≡ value next.consumed_root
        → root_after_update (nullifier r) set_member r.nullifier_exclusion_proof
          ≡ value next.nullifier_root
        → next.leaves ≡ st.leaves ++ (lock_hash r ∷ [])
        → next.seen ≡ st.seen ++ (lock_hash r ∷ [])
        → Advanced price st r next

  leb_le : (a b : ℕ) → leb a b ≡ true → a ≤ b
  leb_le a b h = ground arith

  advance_ok :
      (price : ℕ) (st : Running) (r : BatchRedemption) (next : Running)
      → advance price st r ≡ ok next
      → Advanced price st r next
  unfolding advance
  advance_ok price st r next e =
      let paid = r.payout_confirmation.htlc_output_value_sats in
      let amounts = st.total_amount + r.redeem_intent.amount_satusd_atoms in
      elim (bind_ok (gross_sats r.lock_record.lock_amount_atoms price) _ e) [
        | came gross h1 e1 ↦
            elim (bind_ok (max_fee gross r.redeem_intent.max_operator_fee_bps) _ e1) [
              | came fee h2 e2 ↦
                  elim (bind_ok (ensure (leb (least_payout gross fee) paid) payout_too_low) _ e2) [
                    | came _ h3 e3 ↦ elim (bind_ok (ok_or (checked_u128 amounts) overflow) _ e3) [
                      | came amount h4 e4 ↦
                          elim (bind_ok (ok_or (checked_u128 (st.total_gross + gross)) overflow) _
                            e4) [
                              | came total h5 e5 ↦
                                  elim (bind_ok
                                    (run (
                                      root_after_update (lock_hash r) set_member
                                        r.consumed_exclusion_proof))
                                    _ e5) [
                                      | came consumed h6 e6 ↦
                                          elim (bind_ok
                                            (run (
                                              root_after_update (nullifier r) set_member
                                                r.nullifier_exclusion_proof))
                                            _ e6) [
                                              | came nullified h7 e7 ↦
                                                  let same : record {
                                                    consumed_root = consumed;
                                                    nullifier_root = nullified;
                                                    total_amount = amount;
                                                    total_gross = total;
                                                    leaves = st.leaves ++ (lock_hash r ∷ []);
                                                    seen = st.seen ++ (lock_hash r ∷ []);
                                                  }
                                                      ≡ next =
                                                    ground arith in
                                                  advanced gross fee h1 h2
                                                    (leb_le _ _ (ensure-true _ payout_too_low h3))
                                                    (ap (λ n. n.total_amount) (sym same)
                                                      ∙ exact_u128 amounts amount
                                                          (ok_or-some _ overflow h4))
                                                    (ap (λ n. n.total_gross) (sym same)
                                                      ∙ exact_u128 (st.total_gross + gross) total
                                                          (ok_or-some _ overflow h5))
                                                    (run_value _ h6
                                                      ∙ ap (λ n. value n.consumed_root) same)
                                                    (run_value _ h7
                                                      ∙ ap (λ n. value n.nullifier_root) same)
                                                    (ap (λ n. n.leaves) (sym same))
                                                    (ap (λ n. n.seen) (sym same))
                                            ]
                                    ]
                            ]
                    ]
                  ]
            ]
      ]

module _ ⦃c : Crypto⦄ ⦃bitcoin : Bitcoin⦄ where
  pub data Round (prev : StateRoot) (operator_id : Bytes) (tip_height price : ℕ) (st : Running)
      (r : BatchRedemption) (next : Running) : Type 0 where
    round :
        (gross fee : ℕ)
        → check_intent_lock_binding r.redeem_intent r.lock_record prev.satusd_asset_family_id
          ≡ ok tt
        → contains st.seen (lock_hash r) ≡ false
        → check_active prev st r (lock_hash r) (nullifier r) ≡ ok tt
        → check_paid prev r tip_height ≡ ok tt
        → check_burn_proof_binding r.burn_proof r.lock_finalize prev.satusd_asset_family_id
            r.redeem_intent.network
          ≡ ok tt
        → r.lock_finalize.finalized_amount_atoms ≡ r.lock_record.lock_amount_atoms
        → r.lock_finalize.operator_id ≡ operator_id
        → gross_sats r.lock_record.lock_amount_atoms price ≡ ok gross
        → max_fee gross r.redeem_intent.max_operator_fee_bps ≡ ok fee
        → least_payout gross fee ≤ r.payout_confirmation.htlc_output_value_sats
        → next.total_amount ≡ st.total_amount + r.redeem_intent.amount_satusd_atoms
        → next.total_gross ≡ st.total_gross + gross
        → root_after_update (lock_hash r) set_member r.consumed_exclusion_proof
          ≡ value next.consumed_root
        → root_after_update (nullifier r) set_member r.nullifier_exclusion_proof
          ≡ value next.nullifier_root
        → next.leaves ≡ st.leaves ++ (lock_hash r ∷ [])
        → next.seen ≡ st.seen ++ (lock_hash r ∷ [])
        → Round prev operator_id tip_height price st r next

  module _ (prev : StateRoot) (operator_id : Bytes) (tip_height price : ℕ) (st : Running)
      (r : BatchRedemption) (next : Running) where
    pub redeem_one-Round :
        redeem_one prev operator_id tip_height price st r ≡ ok next
        → Round prev operator_id tip_height price st r next
    unfolding redeem_one advance
    redeem_one-Round e =
        let family = prev.satusd_asset_family_id in
        let intent = r.redeem_intent in
        let fin = r.lock_finalize in
        elim (bind_ok (map_err redeem (check_intent_lock_binding intent r.lock_record family)) _
          e) [
            | came tt h1 e1 ↦
                elim (bind_ok
                  (ensure (is_operator intent.operator_id operator_id) operator_mismatch) _ e1) [
                    | came _ h2 e2 ↦
                        elim (bind_ok
                          (ensure (not (contains st.seen (lock_hash r))) duplicate_in_batch) _ e2) [
                            | came _ h3 e3 ↦
                                elim (bind_ok (check_active prev st r (lock_hash r) (nullifier r)) _
                                  e3) [
                                    | came tt h4 e4 ↦
                                        elim (bind_ok (check_paid prev r tip_height) _ e4) [
                                          | came tt h5 e5 ↦
                                              elim (bind_ok
                                                (check_burn_proof_binding r.burn_proof fin family
                                                  intent.network)
                                                _ e5) [
                                                  | came tt h6 e6 ↦
                                                      elim (bind_ok
                                                        (ensure
                                                          (fin.finalized_amount_atoms
                                                            == r.lock_record.lock_amount_atoms)
                                                          (redeem finalize_amount_mismatch))
                                                        _ e6) [
                                                          | came _ h7 e7 ↦
                                                            elim (bind_ok
                                                            (ensure
                                                            (bytes_eq fin.operator_id operator_id)
                                                            (redeem finalize_operator_mismatch))
                                                            _ e7) [
                                                              | came _ h8 e8 ↦
                                                                elim (advance_ok price st r next
                                                                e8) [
                                                                  | advanced gross fee g f pay
                                                                    amount total consumed nullified
                                                                    leaves seen ↦
                                                                    round gross fee
                                                                    (map_err_ok redeem _ h1)
                                                                    (false_of _ (
                                                                    ensure-true _ duplicate_in_batch
                                                                    h3))
                                                                    h4 h5 h6
                                                                    ((==_iff _ _).0 (
                                                                    ensure-true _
                                                                    (redeem
                                                                    finalize_amount_mismatch)
                                                                    h7))
                                                                    (bytes_eq→eq _ _ (
                                                                    ensure-true _
                                                                    (redeem
                                                                    finalize_operator_mismatch)
                                                                    h8))
                                                                    g f pay amount total consumed
                                                                    nullified leaves seen
                                                                ]
                                                            ]
                                                        ]
                                                ]
                                        ]
                                  ]
                          ]
                  ]
          ]
