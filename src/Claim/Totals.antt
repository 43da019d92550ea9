-- ===== src/Claim/Totals.antt =====
-- The atoms and the sats that the loop over the redemptions adds up.
use native.Mathlib.Nat.{div-mul-le_self}
use sats_usd.Base.{
  ℕ, ◌+◌, ◌*◌, ◌/◌, ◌^◌, ◌≤◌, ◌≡◌, ap, sym, ◌∙◌, List, [], ◌∷◌, Bytes, ok, ok_or, ok_or-some,
  bind_ok, came, arith, ◌==◌, Bool-cases, inl, inr,
}
use sats_usd.Crypto.{Crypto}
use sats_usd.Redeem.Refund.{check_intent_lock_binding_binds}
use sats_usd.TaProof.Anchor.{Bitcoin}
use sats_usd.Types.{StateRoot}
use sats_usd.Claim.{BatchRedemption, overflow, checked_u128}
use sats_usd.Claim.Batch.{Running, gross_sats, redeem_one, redeem_batch}
use sats_usd.Claim.Round.{round, redeem_one-Round, exact_u128}

-- The atoms that a batch redeems, and the sats that it is reimbursed at a price.
abbrev pub atoms_of : List BatchRedemption → ℕ
atoms_of [] = 0
atoms_of (r ∷ rs) = r.redeem_intent.amount_satusd_atoms + atoms_of rs

abbrev pub gross_of : ℕ → List BatchRedemption → ℕ
gross_of price [] = 0
gross_of price (r ∷ rs) = r.lock_record.lock_amount_atoms * 10 ^ 14 / price + gross_of price rs

exact_gross :
    (amount price gross : ℕ) → gross_sats amount price ≡ ok gross → gross ≡ amount * 10 ^ 14 / price
unfolding gross_sats
exact_gross amount price gross e =
    elim (bind_ok (ok_or (checked_u128 (amount * 10 ^ 14)) overflow) _ e) [
      | came scaled h e1 ↦ elim (Bool-cases (price == 0)) [
        | inl z ↦ absurd (cc)
        | inr nz ↦
            let exact : scaled ≡ amount * 10 ^ 14 = exact_u128 _ _ (ok_or-some _ overflow h) in
            let quotient : scaled / price ≡ gross = ground arith in
            sym quotient ∙ ap (λ s. s / price) exact
      ]
    ]

worth_more :
    (q g price locked rest : ℕ) {atoms : ℕ}
    → q * price ≤ locked * 10 ^ 14
    → locked ≡ atoms
    → g * price ≤ rest * 10 ^ 14
    → (q + g) * price ≤ (atoms + rest) * 10 ^ 14
worth_more q g price locked rest down same worth = grind (arith, down, same, worth)

module _ ⦃c : Crypto⦄ ⦃bitcoin : Bitcoin⦄ (prev : StateRoot) (operator_id : Bytes)
    (tip_height price : ℕ) where
  pub redeem_batch_totals :
      (st end : Running) (rs : List BatchRedemption)
      → redeem_batch prev operator_id tip_height price st rs ≡ ok end
      → (end.total_amount ≡ st.total_amount + atoms_of rs)
        × (end.total_gross ≡ st.total_gross + gross_of price rs)
        × (gross_of price rs * price ≤ atoms_of rs * 10 ^ 14)
  unfolding redeem_batch
  redeem_batch_totals st end [] e =
      let same : st ≡ end = ground arith in
      let amount : end.total_amount ≡ st.total_amount = ap (λ s. s.total_amount) (sym same) in
      let gross : end.total_gross ≡ st.total_gross = ap (λ s. s.total_gross) (sym same) in
      (omega arith, omega arith, omega arith)
  redeem_batch_totals st end (r ∷ rs) e =
      elim (bind_ok (redeem_one prev operator_id tip_height price st r) _ e) [
        | came next one rest ↦
            elim (redeem_one-Round prev operator_id tip_height price st r next one) [
              | round gross fee bound _ _ _ _ _ _ g _ _ amount total _ _ _ _ ↦
                  let (more, more_gross, worth) = redeem_batch_totals next end rs rest in
                  let exact = exact_gross r.lock_record.lock_amount_atoms price gross g in
                  let (_, _, _, same, _, _, _) =
                    check_intent_lock_binding_binds r.redeem_intent r.lock_record
                      prev.satusd_asset_family_id bound in
                  let down = div-mul-le_self (r.lock_record.lock_amount_atoms * 10 ^ 14) price in
                  (
                    omega (arith, more, amount),
                    omega (arith, more_gross, total, exact),
                    worth_more _ _ _ _ _ down same worth,
                  )
            ]
      ]
