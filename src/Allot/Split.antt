-- ===== src/Allot/Split.antt =====
-- A plan splits the reserve.
use native.Mathlib.Nat.{div-mul-le_self, mul-le-mul_right}
use sats_usd.Base.{
  ℕ, suc, ◌+◌, ◌-◌, ◌*◌, ◌/◌, ◌%◌, ◌^◌, ◌≤◌, ◌<◌, ◌≡◌, refl, ap, sym, ◌∙◌, List, [], ◌∷◌, true,
  false, ok, bind_ok, came, map, leb, ◌==◌, arith, Bool-cases, inl, inr, u64_mod,
}
use sats_usd.Crypto.{Crypto}
use sats_usd.Allot.{
  RailPosition, AllotmentInput, AllotmentPlan, sort_positions, check_distinct, cap_of, total_of,
  tranche_of, compute,
}

abbrev pub shares : ℕ → ℕ → List RailPosition → ℕ
shares total reserve ps = total_of (map (λ t. t.tranche_sats) (map (tranche_of total reserve) ps))

-- Where the capacities fit, each is granted whole.
shares_whole :
    (total reserve : ℕ) (ps : List RailPosition)
    → total ≤ reserve
    → shares total reserve ps ≡ total_of (map cap_of ps)
unfolding total_of tranche_of
shares_whole total reserve [] h = refl
shares_whole total reserve (p ∷ ps) h =
    let fits : leb total reserve ≡ true = ground arith in
    rw fits (ap (λ s. cap_of p + s) (shares_whole total reserve ps h))

scaled_le : (room reserve total : ℕ) → (room * reserve / total % u64_mod) * total ≤ room * reserve
scaled_le room reserve total =
    let q = room * reserve / total in
    let small : q % u64_mod ≤ q = omega arith in
    let wide : (q % u64_mod) * total ≤ q * total = mul-le-mul_right total small in
    omega (arith, wide, div-mul-le_self (room * reserve) total)

more :
    (x y room rooms reserve total : ℕ)
    → x * total ≤ room * reserve
    → y * total ≤ rooms * reserve
    → (x + y) * total ≤ (room + rooms) * reserve
more x y room rooms reserve total h k = grind (arith, h, k)

below_reserve : (x reserve total : ℕ) → x * total ≤ total * reserve → 0 < total → x ≤ reserve
below_reserve x reserve total h pos = elim (Bool-cases (leb x reserve)) [
  | inl e ↦ ground arith
  | inr e ↦
      let above : suc reserve ≤ x = ground arith in
      let wide : suc reserve * total ≤ x * total = mul-le-mul_right total above in
      absurd (grind (arith, wide, h, pos))
]

shares_scaled :
    (total reserve : ℕ) (ps : List RailPosition)
    → reserve < total
    → shares total reserve ps * total ≤ total_of (map cap_of ps) * reserve
unfolding total_of tranche_of
shares_scaled total reserve [] h = omega arith
shares_scaled total reserve (p ∷ ps) h =
    let over : leb total reserve ≡ false = ground arith in
    let some_cap : (total == 0) ≡ false = ground arith in
    let rest = shares_scaled total reserve ps h in
    rw (over, some_cap)
      (more _ _ (cap_of p) (total_of (map cap_of ps)) reserve total
        (scaled_le (cap_of p) reserve total) rest)

-- The tranches of distinct rails together never exceed the reserve.
shares_le :
    (reserve : ℕ) (ps : List RailPosition) → shares (total_of (map cap_of ps)) reserve ps ≤ reserve
shares_le reserve ps =
    let total = total_of (map cap_of ps) in
    elim (Bool-cases (leb total reserve)) [
      | inl e ↦
          let fits : total ≤ reserve = ground arith in
          omega (arith, shares_whole total reserve ps fits)
      | inr e ↦
          let over : reserve < total = ground arith in
          below_reserve (shares total reserve ps) reserve total
            (shares_scaled total reserve ps over) (omega (arith, over))
    ]

module _ ⦃c : Crypto⦄ where
  -- Where the reserve is a u64, the tranches of a plan and what it leaves unallocated are together
  -- exactly the reserve, whether or not the capacities exceed it.
  pub compute_splits :
      (input : AllotmentInput) (plan : AllotmentPlan)
      → input.reserve_total_sats < 2 ^ 64
      → compute input ≡ ok plan
      → total_of (map (λ t. t.tranche_sats) plan.tranches) + plan.unallocated_sats
        ≡ input.reserve_total_sats
  unfolding compute
  compute_splits input plan fits e =
      elim (bind_ok (check_distinct (sort_positions input.positions)) _ e) [
        | came _ _ e1 ↦
            let sorted = sort_positions input.positions in
            let reserve = input.reserve_total_sats in
            let sum = shares (total_of (map cap_of sorted)) reserve sorted in
            let tranches : map (tranche_of (total_of (map cap_of sorted)) reserve) sorted
                ≡ plan.tranches =
              ground arith in
            let left : reserve - sum % u64_mod ≡ plan.unallocated_sats = ground arith in
            ap (λ ts. total_of (map (λ t. t.tranche_sats) ts) + plan.unallocated_sats)
              (sym tranches)
            ∙ omega (arith, shares_le reserve sorted, left, fits)
      ]
