-- ===== src/Tests/Allotting.antt =====
-- A plan of two rails whose capacities exceed the reserve.
use sats_usd.Base.{◌+◌, ◌≡◌, refl, [], ◌∷◌, ok, map, arith}
use sats_usd.Allot.{AllotmentInput, AllotmentPlan, total_of, compute}
use sats_usd.Allot.Split.{compute_splits}
use sats_usd.Tests.Registering.{key}
use sats_usd.Tests.Proving.{flat, sevens}

abbrev input : AllotmentInput
input = record {
  epoch = 3;
  reserve_total_sats = 1000;
  positions =
      record { rail_id = key 9; retained_fees_cum_sats = 500; lp_stake_sats = 1500 }
      ∷ record { rail_id = key 2; retained_fees_cum_sats = 0; lp_stake_sats = 1000 }
      ∷ [];
}

abbrev plan : AllotmentPlan
plan = record {
  epoch = 3;
  reserve_total_sats = 1000;
  input_hash = sevens;
  tranches =
      record { rail_id = key 2; capacity_sats = 500; tranche_sats = 333 }
      ∷ record { rail_id = key 9; capacity_sats = 1000; tranche_sats = 666 }
      ∷ [];
  unallocated_sats = 1;
}

planned : compute ⦃c = flat⦄ input ≡ ok plan
unfolding compute sats_usd.Allot.check_distinct sats_usd.Allot.sort_positions
    sats_usd.Allot.insert_position sats_usd.Derive.bytes_leb sats_usd.Allot.rail_tagged_hash
    sats_usd.Allot.tranche_of total_of sats_usd.Crypto.sha256 sats_usd.Allot.cap_of
    sats_usd.Allot.capacity_sats
planned = refl

compute_splits_example : total_of (map (λ t. t.tranche_sats) plan.tranches) + 1 ≡ 1000
compute_splits_example = compute_splits ⦃c = flat⦄ input plan (omega arith) planned
