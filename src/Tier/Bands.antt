-- ===== src/Tier/Bands.antt =====
-- The tiers as bands of the reserve's value over the supply, and their order.
use native.Mathlib.Nat.{mul-le-mul_right}
use mathlib.Core.Path.{subst}
use sats_usd.Base.{
  ℕ, ◌+◌, ◌*◌, ◌^◌, ◌<◌, ◌≤◌, ◌≡◌, ◌⊎◌, inl, inr, Option, none, some, Eval, value, panicked, arith,
  Bool-cases, leb, leb→le, refl,
}
use sats_usd.Tier.{
  EmergencyTier, healthy, pause_mint, auction, settlement, collateral_ratio_ppm, tier_of_ratio,
  recompute_tier,
}
use sats_usd.Tier.Ratio.{collateral_ratio_ppm_floor}

-- Reserve times price against a percentage of the supply, in the code's units.
abbrev pub Covers : ℕ → ℕ → ℕ → ℕ → Type 0
Covers percent r s p = percent * (s * 10 ^ 14) ≤ 100 * (r * p)

-- What each tier says of reserve, supply and price.
abbrev pub InTier : EmergencyTier → ℕ → ℕ → ℕ → Type 0
InTier healthy r s p = (s ≡ 0) ⊎ Covers 150 r s p
InTier pause_mint r s p = Covers 130 r s p × (¬ Covers 150 r s p)
InTier auction r s p = Covers 110 r s p × (¬ Covers 130 r s p)
InTier settlement r s p = ¬ Covers 110 r s p

zero_supply : (r s p : ℕ) → collateral_ratio_ppm r s p ≡ value none → s ≡ 0
unfolding collateral_ratio_ppm
zero_supply r s p e = ground arith

-- A threshold of the ratio is a threshold of the value.
quotient-Covers :
    (k r s p cr : ℕ)
    → cr * (s * 10 ^ 14) ≤ r * p * 1_000_000
    → r * p * 1_000_000 < (cr + 1) * (s * 10 ^ 14)
    → (k * 10_000 ≤ cr → Covers k r s p) × (cr < k * 10_000 → ¬ Covers k r s p)
quotient-Covers k r s p cr lo hi = (
  λ h. omega (arith, mul-le-mul_right (s * 10 ^ 14) h),
  λ h c. omega (arith, mul-le-mul_right (s * 10 ^ 14) h),
)

tier_of_ratio-InTier :
    (r s p cr : ℕ)
    → cr * (s * 10 ^ 14) ≤ r * p * 1_000_000
    → r * p * 1_000_000 < (cr + 1) * (s * 10 ^ 14)
    → InTier (tier_of_ratio (some cr)) r s p
unfolding tier_of_ratio
tier_of_ratio-InTier r s p cr lo hi =
    let (c150, n150) = quotient-Covers 150 r s p cr lo hi in
    let (c130, n130) = quotient-Covers 130 r s p cr lo hi in
    let (c110, n110) = quotient-Covers 110 r s p cr lo hi in
    elim (Bool-cases (leb 1_500_000 cr)) [
      | inl h ↦ rw h (inr (c150 (leb→le _ _ h)))
      | inr n ↦ elim (Bool-cases (leb 1_300_000 cr)) [
        | inl h ↦ rw (n, h) (c130 (leb→le _ _ h), n150 (ground arith))
        | inr n' ↦ elim (Bool-cases (leb 1_100_000 cr)) [
          | inl h ↦ rw (n, n', h) (c110 (leb→le _ _ h), n130 (ground arith))
          | inr n'' ↦ rw (n, n', n'') (n110 (ground arith))
        ]
      ]
    ]

ratio-InTier :
    (r s p : ℕ) (e : Eval (Option ℕ)) {t : EmergencyTier}
    → collateral_ratio_ppm r s p ≡ e
    → (elim e [ value cr ↦ value (tier_of_ratio cr) | panicked ↦ panicked ]) ≡ value t
    → InTier t r s p
unfolding tier_of_ratio
ratio-InTier r s p (value none) {t} c e =
    let same : tier_of_ratio none ≡ t = cc in
    subst (λ u. InTier u r s p) same (inl (zero_supply r s p c))
ratio-InTier r s p (value (some cr)) {t} c e =
    let (_, lo, hi, _) = collateral_ratio_ppm_floor r s p c in
    let same : tier_of_ratio (some cr) ≡ t = cc in
    subst (λ u. InTier u r s p) same (tier_of_ratio-InTier r s p cr lo hi)
ratio-InTier r s p panicked c e = absurd (cc)

-- Where a tier is computed without a panic, it is the band, of 150, 130 and 110 percent, in which
-- the reserve's value over the supply lies.
pub recompute_tier-InTier :
    (r s p : ℕ) {t : EmergencyTier} → recompute_tier r s p ≡ value t → InTier t r s p
unfolding recompute_tier tier_of_ratio
recompute_tier-InTier r s p e = ratio-InTier r s p (collateral_ratio_ppm r s p) refl e
