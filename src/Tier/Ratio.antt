-- ===== src/Tier/Ratio.antt =====
-- The ratio as an inequality between reserve and supply, and its panics.
use sats_usd.Base.{ℕ, ◌+◌, ◌*◌, ◌/◌, ◌^◌, ◌<◌, ◌≤◌, ◌≡◌, ◌↔◌, ◌⊎◌, some, value, panicked, arith}
use native.Mathlib.Nat.{div-mul-le_self, lt-div-mul-add, div-lt_iff_lt-mul}
use sats_usd.Tier.{collateral_ratio_ppm}

-- The bounds of a quotient, for any divisor.
quotient_bounds : (n d : ℕ) → 0 < d → (n / d * d ≤ n) × (n < (n / d + 1) * d)
quotient_bounds n d h = (div-mul-le_self n d, grind (arith, lt-div-mul-add {a = n} {b = d} h))

-- `cr_ppm` fits a `u64` exactly when the numerator is below 2^64 denominators.
quotient_fits : (n d : ℕ) → 0 < d → (n / d < 2 ^ 64) ↔ (n < 2 ^ 64 * d)
quotient_fits n d h = div-lt_iff_lt-mul h

-- For a positive 64-bit supply, collateral_ratio_ppm panics exactly where the numerator leaves 128
-- bits or the ratio leaves 64.
pub collateral_ratio_ppm-panicked :
    (r s p : ℕ)
    → s < 2 ^ 64
    → 0 < s
    → (collateral_ratio_ppm r s p ≡ panicked)
      ↔ ((2 ^ 128 ≤ r * p * 1_000_000) ⊎ (2 ^ 64 * (s * 10 ^ 14) ≤ r * p * 1_000_000))
unfolding collateral_ratio_ppm
collateral_ratio_ppm-panicked r s p hs h =
    let fits = quotient_fits (r * p * 1_000_000) (s * 10 ^ 14) (omega arith) in
    (ground (arith, fits.1), ground (arith, fits.0))

-- A ratio that is returned is the quotient of the reserve's value by the supply, rounded down.
pub collateral_ratio_ppm_floor :
    (r s p : ℕ) {cr : ℕ}
    → collateral_ratio_ppm r s p ≡ value (some cr)
    → (0 < s)
      × (cr * (s * 10 ^ 14) ≤ r * p * 1_000_000)
      × (r * p * 1_000_000 < (cr + 1) * (s * 10 ^ 14))
      × (cr < 2 ^ 64)
unfolding collateral_ratio_ppm
collateral_ratio_ppm_floor r s p {cr} e =
    let h : (0 < s) × (cr ≡ r * p * 1_000_000 / (s * 10 ^ 14)) × (cr < 2 ^ 64) =
      (ground arith, ground arith, ground arith) in
    let (lo, hi) = quotient_bounds (r * p * 1_000_000) (s * 10 ^ 14) (omega arith) in
    (h.0, rw (h.1) lo, rw (h.1) hi, h.2)
