-- ===== src/Mint/Backing.antt =====
-- The collateral check of both mint stages, as an inequality.
use native.Mathlib.Nat.{mul-le-mul_right}
use sats_usd.Base.{
  ℕ, ◌*◌, ◌^◌, ◌≤◌, ◌≡◌, refl, Option, some, none, Eval, value, panicked, arith, Bytes, Result, ok,
  err, panic, bytes_eq→eq,
}
use sats_usd.Tier.{collateral_ratio_ppm}
use sats_usd.Tier.Ratio.{collateral_ratio_ppm_floor}
use sats_usd.Tier.Bands.{Covers}
use sats_usd.Mint.{expect_ratio, match_commitment, map_deposit_error}
use sats_usd.Spv.{DepositSpvError}

expected_ratio : (e : Eval (Option ℕ)) {cr : ℕ} → expect_ratio e ≡ value cr → e ≡ value (some cr)
expected_ratio (value (some x)) h = cc
expected_ratio (value none) h = cc
expected_ratio panicked h = cc

-- A ratio of at least two million parts means a reserve worth twice the supply.
pub ratio-Covers :
    (r s p cr : ℕ)
    → expect_ratio (collateral_ratio_ppm r s p) ≡ value cr
    → 2_000_000 ≤ cr
    → Covers 200 r s p
ratio-Covers r s p cr e h =
    let (_, lo, _, _) =
      collateral_ratio_ppm_floor r s p {cr = cr} (expected_ratio (collateral_ratio_ppm r s p) e) in
    omega (arith, mul-le-mul_right (s * 10 ^ 14) h, lo)

pub match_commitment_ok :
    (pending : Option Bytes) (commitment : Bytes)
    → match_commitment pending commitment ≡ ok tt
    → pending ≡ some commitment
match_commitment_ok none commitment h = cc
match_commitment_ok (some p) commitment h = ground (arith, bytes_eq→eq p commitment)

pub map_deposit_error_ok :
    (r : Result DepositSpvError (Unit {0})) → map_deposit_error r ≡ ok tt → r ≡ ok tt
map_deposit_error_ok (ok u) h = refl
map_deposit_error_ok (err e) h = cc
map_deposit_error_ok panic h = cc
