-- ===== src/Reserve/Mock.antt =====
-- `MockReserve`: pays at once.
pub mod Invariant
use sats_usd.Base.{ℕ, [], Bytes, Option, none, some, Result, ok, err, ltb, if◌then◌else◌}
use sats_usd.Base.Dict.{Dict, lookup, put, remove}
use sats_usd.Types.{ReserveClaim}
use sats_usd.Reserve.Base.{
  ReserveView, FinalizeError, unknown_claim, reserve_insufficient, ReserveSpend, wrapping_add,
  wrapping_sub,
}

pub record Pending : Type 0 where
  pub operator_id : Bytes
  pub amount_sats : ℕ

pub record MockReserve : Type 0 where
  pub total_sats : ℕ
  pub reserved_sats : ℕ
  pub pending : Dict Pending

unfoldable pub new_mock : ℕ → MockReserve
new_mock total = record { total_sats = total; reserved_sats = 0; pending = [] }

unfoldable pub mock_view : MockReserve → ReserveView
mock_view r = record { total_sats = r.total_sats; reserved_sats = r.reserved_sats }

unfoldable pub mock_credit : ℕ → MockReserve → MockReserve
mock_credit sats r = record r { total_sats = wrapping_add r.total_sats sats }

unfoldable pub mock_submit_claim : ReserveClaim → MockReserve → MockReserve
mock_submit_claim claim r = record r {
  reserved_sats = wrapping_add r.reserved_sats claim.reimbursement_sats;
  pending =
      put claim.claim_id
        (record { operator_id = claim.operator_id; amount_sats = claim.reimbursement_sats })
        r.pending;
}

-- The entry is removed, and put back where the reserve cannot pay.
unfoldable pub mock_finalize_claim :
    Bytes → MockReserve → Result FinalizeError ReserveSpend × MockReserve
mock_finalize_claim h r = elim (lookup h r.pending) [
  | none ↦ (err unknown_claim, r)
  | some p ↦
      if ltb r.total_sats p.amount_sats
      then (err reserve_insufficient, record r { pending = put h p (remove h r.pending) })
      else (
        ok (record { claim_id = h; operator_id = p.operator_id; amount_sats = p.amount_sats }),
        record {
          total_sats = wrapping_sub r.total_sats p.amount_sats;
          reserved_sats = wrapping_sub r.reserved_sats p.amount_sats;
          pending = remove h r.pending;
        },
      )
]

unfoldable pub mock_reclaim_stale : Bytes → MockReserve → Result FinalizeError ℕ × MockReserve
mock_reclaim_stale h r = elim (lookup h r.pending) [
  | none ↦ (err unknown_claim, r)
  | some p ↦ (
    ok p.amount_sats,
    record r {
      reserved_sats = wrapping_sub r.reserved_sats p.amount_sats;
      pending = remove h r.pending;
    },
  )
]
