-- ===== src/Tier.antt =====
-- crates/satusd-types/src/tier.rs
pub mod Ratio
pub mod Bands
use sats_usd.Base.{
  ℕ, ◌*◌, ◌/◌, ◌^◌, Option, none, some, Eval, value, panicked, leb, ltb, ◌==◌, if◌then◌else◌,
  u64_mod, u128_mod,
}

pub data EmergencyTier : Type 0 where
  healthy pause_mint auction settlement : EmergencyTier

unfoldable pub emergency_tier_u8 : EmergencyTier → ℕ
emergency_tier_u8 healthy = 0
emergency_tier_u8 pause_mint = 1
emergency_tier_u8 auction = 2
emergency_tier_u8 settlement = 3

-- Each `checked_mul(..).unwrap()` and the final `assert!` may panic.
unfoldable pub collateral_ratio_ppm : ℕ → ℕ → ℕ → Eval (Option ℕ)
collateral_ratio_ppm reserve_sats supply_atoms price_e8 =
    if supply_atoms == 0
    then value none
    else if leb u128_mod (reserve_sats * price_e8)
    then panicked
    else if leb u128_mod (reserve_sats * price_e8 * 1_000_000)
    then panicked
    else if leb u128_mod (supply_atoms * 10 ^ 14)
    then panicked
    else let cr_ppm = reserve_sats * price_e8 * 1_000_000 / (supply_atoms * 10 ^ 14) in
      if ltb cr_ppm u64_mod then value (some cr_ppm) else panicked

unfoldable pub tier_of_ratio : Option ℕ → EmergencyTier
tier_of_ratio none = healthy
tier_of_ratio (some cr_ppm) =
    if leb 1_500_000 cr_ppm
    then healthy
    else if leb 1_300_000 cr_ppm
    then pause_mint
    else if leb 1_100_000 cr_ppm
    then auction
    else settlement

unfoldable pub recompute_tier : ℕ → ℕ → ℕ → Eval EmergencyTier
unfolding tier_of_ratio
recompute_tier reserve_sats supply_atoms price_e8 =
    elim (collateral_ratio_ppm reserve_sats supply_atoms price_e8) [
      | value cr ↦ value (tier_of_ratio cr)
      | panicked ↦ panicked
    ]
