-- ===== src/Allot.antt =====
-- crates/satusd-allot/src/plan.rs, with `capacity_sats` and the encoder of crates/satusd-rail/src:
-- the plan that splits a reserve over the rails.
pub mod Split
use sats_usd.Base.{
  ℕ, ◌+◌, ◌-◌, ◌*◌, ◌/◌, ◌%◌, ◌^◌, List, [], ◌∷◌, ◌++◌, Bytes, Bool, true, false, ◌||◌, not, Result,
  ok, err, panic, ◌>>=◌, ◌>>◌, ensure, length, map, bytes_eq, leb, ltb, ◌==◌, u64_mod,
  if◌then◌else◌,
}
use sats_usd.Crypto.{Crypto, sha256}
use sats_usd.Derive.{bytes_leb}
use sats_usd.Domain.{codes}
use sats_usd.Encoding.{u8, u16, u32, u64}

-- `fees + stake` in 128 bits, halved; `as u64` wraps.
unfoldable pub capacity_sats : ℕ → ℕ → ℕ
capacity_sats retained_fees_cum_sats lp_stake_sats =
    (retained_fees_cum_sats + lp_stake_sats) * 1 / 2 % u64_mod

unfoldable pub put_bigsize : ℕ → Bytes
put_bigsize v =
    if leb v 0xfc
    then u8 v
    else if leb v 0xffff
    then 0xfd ∷ u16 v
    else if leb v 0xffff_ffff
    then 0xfe ∷ u32 v
    else 0xff ∷ u64 v

pub record RailPosition : Type 0 where
  pub rail_id : Bytes
  pub retained_fees_cum_sats : ℕ
  pub lp_stake_sats : ℕ

pub record AllotmentInput : Type 0 where
  pub epoch : ℕ
  pub reserve_total_sats : ℕ
  pub positions : List RailPosition

pub record Tranche : Type 0 where
  pub rail_id : Bytes
  pub capacity_sats : ℕ
  pub tranche_sats : ℕ

pub record AllotmentPlan : Type 0 where
  pub epoch : ℕ
  pub reserve_total_sats : ℕ
  pub input_hash : Bytes
  pub tranches : List Tranche
  pub unallocated_sats : ℕ

pub data PlanError : Type 0 where
  duplicate_rail_id : Bytes → PlanError

-- `sort_by_key(|p| p.rail_id)` is stable.
unfoldable pub insert_position : RailPosition → List RailPosition → List RailPosition
insert_position p [] = p ∷ []
insert_position p (q ∷ qs) =
    let behind = insert_position p qs in
    if bytes_leb p.rail_id q.rail_id then p ∷ q ∷ qs else q ∷ behind

unfoldable pub sort_positions : List RailPosition → List RailPosition
sort_positions [] = []
sort_positions (p ∷ ps) = insert_position p (sort_positions ps)

-- The loop over `windows(2)`.
unfoldable pub check_distinct : List RailPosition → Result PlanError (Unit {0})
check_distinct [] = ok tt
check_distinct (p ∷ []) = ok tt
check_distinct (p ∷ q ∷ ps) =
    let rest = check_distinct (q ∷ ps) in
    if bytes_eq p.rail_id q.rail_id then err (duplicate_rail_id p.rail_id) else rest

unfoldable pub encode_positions : List RailPosition → Bytes
encode_positions [] = []
encode_positions (p ∷ ps) =
    p.rail_id ++ (u64 p.retained_fees_cum_sats ++ (u64 p.lp_stake_sats ++ encode_positions ps))

unfoldable pub canonical_input : ℕ → ℕ → List RailPosition → Bytes
canonical_input epoch reserve sorted =
    u32 epoch ++ (u64 reserve ++ (put_bigsize (length sorted) ++ encode_positions sorted))

unfoldable pub cap_of : RailPosition → ℕ
cap_of p = capacity_sats p.retained_fees_cum_sats p.lp_stake_sats

unfoldable pub total_of : List ℕ → ℕ
total_of [] = 0
total_of (x ∷ xs) = x + total_of xs

-- One tranche, floored where the capacities exceed the reserve.
unfoldable pub tranche_of : ℕ → ℕ → RailPosition → Tranche
tranche_of total_cap reserve p =
    let cap = cap_of p in
    record {
      rail_id = p.rail_id;
      capacity_sats = cap;
      tranche_sats =
          if leb total_cap reserve || (total_cap == 0)
          then cap
          else cap * reserve / total_cap % u64_mod;
    }

module _ ⦃c : Crypto⦄ where
  unfoldable pub rail_tagged_hash : Bytes → Bytes → Bytes
  rail_tagged_hash tag msg =
      let tag_digest = sha256 (tag ∷ []) in sha256 (tag_digest ∷ tag_digest ∷ msg ∷ [])

  -- `AllotmentPlan::compute`; the `u64` sum of the tranches wraps.
  unfoldable pub compute : AllotmentInput → Result PlanError AllotmentPlan
  compute input = do
    let sorted = sort_positions input.positions
    let reserve = input.reserve_total_sats
    check_distinct sorted
    let total_cap = total_of (map cap_of sorted)
    let tranches = map (tranche_of total_cap reserve) sorted
    let allocated = total_of (map (λ t. t.tranche_sats) tranches) % u64_mod
    ok (record {
      epoch = input.epoch;
      reserve_total_sats = reserve;
      input_hash =
          rail_tagged_hash (codes "SatUSD/allotment-input/v1")
            (canonical_input input.epoch reserve sorted);
      tranches = tranches;
      unallocated_sats = reserve - allocated;
    })
