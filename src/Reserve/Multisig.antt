-- ===== src/Reserve/Multisig.antt =====
-- `MultisigReserve`: pays with the committee's approval.
pub mod Approvals
pub mod Invariant
pub mod Payout
use sats_usd.Base.{
  ℕ, [], ◌∷◌, ◌++◌, List, Bytes, Bool, true, false, not, ◌&&◌, ◌||◌, Option, none, some, Result, ok,
  err, length, contains, bytes_eq, ltb, if◌then◌else◌,
}
use sats_usd.Base.Dict.{Dict, lookup, put, remove}
use sats_usd.Crypto.{Crypto, verify_ecdsa}
use sats_usd.Types.{ReserveClaim}
use sats_usd.Reserve.Base.{
  ReserveView, FinalizeError, paused, vetoed, unknown_claim, already_finalized,
  approval_insufficient, reserve_insufficient, ReserveSpend, PauseReason, Committee, Approval,
  wrapping_add, wrapping_sub, count_approvals,
}

pub record MsPending : Type 0 where
  pub operator_id : Bytes
  pub amount_sats : ℕ
  pub approvals : List Approval
  pub vetoed : Bool
  pub finalized : Bool

pub record MultisigReserve : Type 0 where
  pub total_sats : ℕ
  pub reserved_sats : ℕ
  pub committee : Committee
  pub paused : Option PauseReason
  pub pending : Dict MsPending

unfoldable pub new_multisig : ℕ → Committee → MultisigReserve
new_multisig total committee = record {
  total_sats = total;
  reserved_sats = 0;
  committee = committee;
  paused = none;
  pending = [];
}

unfoldable pub ms_view : MultisigReserve → ReserveView
ms_view r = record { total_sats = r.total_sats; reserved_sats = r.reserved_sats }

abbrev pub is_paused : MultisigReserve → Bool
is_paused r = elim r.paused [ none ↦ false | some _ ↦ true ]

unfoldable pub veto_package :
    Bytes → MultisigReserve → Result FinalizeError (Unit {0}) × MultisigReserve
veto_package h r = elim (lookup h r.pending) [
  | none ↦ (err unknown_claim, r)
  | some p ↦ (ok tt, record r { pending = put h (record p { vetoed = true }) r.pending })
]

unfoldable pub ms_credit : ℕ → MultisigReserve → MultisigReserve
ms_credit sats r = record r { total_sats = wrapping_add r.total_sats sats }

unfoldable pub resume : MultisigReserve → MultisigReserve
resume r = record r { paused = none }

unfoldable pub emergency_pause : PauseReason → MultisigReserve → MultisigReserve
emergency_pause reason r = record r { paused = some reason }

-- `p.approvals.iter().any(|a| a.signer_pubkey == key)`
unfoldable pub approved_by : Bytes → List Approval → Bool
approved_by key [] = false
approved_by key (a ∷ as_) = bytes_eq a.signer_pubkey key || approved_by key as_

unfoldable pub clear_approvals : Dict MsPending → Dict MsPending
clear_approvals [] = []
clear_approvals ((k, p) ∷ m) = (k, record p { approvals = [] }) ∷ clear_approvals m

unfoldable pub rotate_committee : Committee → MultisigReserve → MultisigReserve
rotate_committee new r = record r { committee = new; pending = clear_approvals r.pending }

unfoldable pub ms_submit_claim : ReserveClaim → MultisigReserve → MultisigReserve
ms_submit_claim claim r = record r {
  reserved_sats = wrapping_add r.reserved_sats claim.reimbursement_sats;
  pending =
      put claim.claim_id
        (record {
          operator_id = claim.operator_id;
          amount_sats = claim.reimbursement_sats;
          approvals = [];
          vetoed = false;
          finalized = false;
        })
        r.pending;
}

unfoldable pub ms_reclaim_stale : Bytes → MultisigReserve → Result FinalizeError ℕ × MultisigReserve
ms_reclaim_stale h r = elim (lookup h r.pending) [
  | none ↦ (err unknown_claim, r)
  | some p ↦ if p.finalized then (err already_finalized, r) else (
    ok p.amount_sats,
    record r {
      reserved_sats = wrapping_sub r.reserved_sats p.amount_sats;
      pending = remove h r.pending;
    },
  )
]

module _ ⦃c : Crypto⦄ where
  unfoldable pub approval_count : Bytes → MultisigReserve → ℕ
  approval_count h r = elim (lookup h r.pending) [
    | none ↦ 0
    | some p ↦ count_approvals r.committee h p.approvals
  ]

  unfoldable pub add_approval :
      Bytes → Approval → MultisigReserve → Result FinalizeError (Unit {0}) × MultisigReserve
  add_approval h approval r =
      let authorized =
        contains r.committee.pubkeys approval.signer_pubkey
        && verify_ecdsa h approval.signer_pubkey approval.signature in
      elim (lookup h r.pending) [
        | none ↦ (err unknown_claim, r)
        | some p ↦
            if authorized && not (approved_by approval.signer_pubkey p.approvals)
            then (
              ok tt,
              record r {
                pending = put h (record p { approvals = p.approvals ++ approval ∷ [] }) r.pending;
              },
            )
            else (ok tt, r)
      ]

  unfoldable pub ms_finalize_claim :
      Bytes → MultisigReserve → Result FinalizeError ReserveSpend × MultisigReserve
  ms_finalize_claim h r =
      let have = approval_count h r in
      if is_paused r then (err paused, r) else elim (lookup h r.pending) [
        | none ↦ (err unknown_claim, r)
        | some p ↦
            if p.finalized
            then (err already_finalized, r)
            else if p.vetoed
            then (err vetoed, r)
            else if ltb have r.committee.threshold
            then (err (approval_insufficient have r.committee.threshold), r)
            else if ltb r.total_sats p.amount_sats
            then (err reserve_insufficient, r)
            else (
              ok (record {
                claim_id = h;
                operator_id = p.operator_id;
                amount_sats = p.amount_sats;
              }),
              record r {
                total_sats = wrapping_sub r.total_sats p.amount_sats;
                reserved_sats = wrapping_sub r.reserved_sats p.amount_sats;
                pending = put h (record p { finalized = true }) r.pending;
              },
            )
      ]
