-- ===== src/Reserve/Multisig/Invariant.antt =====
-- The accounting of `MultisigReserve`, over every sequence of calls.
use sats_usd.Base.{
  ℕ, ◌%◌, ◌≡◌, refl, [], ◌∷◌, ◌++◌, Bytes, none, some, true, false, not, ◌&&◌, arith, u64_mod,
  contains, if◌then◌else◌, Bool-cases, Option-cases, inl, inr,
}
use sats_usd.Base.Dict.{
  Dict, lookup, put, Unique, total, put-Unique, remove-Unique, total-remove, total-put_new,
  total-put,
}
use sats_usd.Crypto.{Crypto, verify_ecdsa}
use sats_usd.Types.{ReserveClaim}
use sats_usd.Reserve.Base.{PauseReason, Committee, Approval}
use sats_usd.Reserve.Multisig.Payout.{ms_finalize_claim-cases}
use sats_usd.Reserve.Multisig.{
  MsPending, MultisigReserve, new_multisig, ms_credit, ms_submit_claim, ms_finalize_claim,
  ms_reclaim_stale, veto_package, add_approval, resume, emergency_pause, rotate_committee,
  clear_approvals, approved_by,
}

module _ ⦃c : Crypto⦄ where
  -- One call of the backend; a claim is submitted under an id that is not pending.
  pub data MsStep : MultisigReserve → MultisigReserve → Type 0 where
    credit : (sats : ℕ) (r : MultisigReserve) → MsStep r (ms_credit sats r)
    submit :
        (claim : ReserveClaim) (r : MultisigReserve)
        → lookup claim.claim_id r.pending ≡ none
        → MsStep r (ms_submit_claim claim r)
    approve : (h : Bytes) (a : Approval) (r : MultisigReserve) → MsStep r (add_approval h a r).1
    veto : (h : Bytes) (r : MultisigReserve) → MsStep r (veto_package h r).1
    pause : (reason : PauseReason) (r : MultisigReserve) → MsStep r (emergency_pause reason r)
    unpause : (r : MultisigReserve) → MsStep r (resume r)
    rotate : (new : Committee) (r : MultisigReserve) → MsStep r (rotate_committee new r)
    finalize : (h : Bytes) (r : MultisigReserve) → MsStep r (ms_finalize_claim h r).1
    reclaim : (h : Bytes) (r : MultisigReserve) → MsStep r (ms_reclaim_stale h r).1

  pub data MsReachable : MultisigReserve → Type 0 where
    start : (sats : ℕ) (committee : Committee) → MsReachable (new_multisig sats committee)
    next : {r s : MultisigReserve} → MsReachable r → MsStep r s → MsReachable s

-- The sats that a claim still holds.
abbrev pub unpaid : MsPending → ℕ
unpaid p = if p.finalized then 0 else p.amount_sats

-- `reserved_sats` is what the unpaid claims come to, and no id stands twice.
abbrev pub MsAccounts : MultisigReserve → Type 0
MsAccounts r = (r.reserved_sats ≡ total unpaid r.pending % u64_mod) × Unique r.pending

-- A claim replaced by one that holds as much.
replace-accounts :
    (h : Bytes) {p : MsPending} (q : MsPending) (r : MultisigReserve)
    → lookup h r.pending ≡ some p
    → unpaid q ≡ unpaid p
    → MsAccounts r
    → MsAccounts (record r { pending = put h q r.pending })
replace-accounts h {p = p} q r l w (e, u) =
    (omega (arith, e, w, total-put unpaid h {v = p} q r.pending l), put-Unique h q r.pending u)

lookup-clear_none :
    (k : Bytes) (m : Dict MsPending) → lookup k m ≡ none → lookup k (clear_approvals m) ≡ none
unfolding lookup clear_approvals
lookup-clear_none k [] h = refl
lookup-clear_none k ((i, p) ∷ m) h = ground (arith, lookup-clear_none k m)

clear-accounts :
    (m : Dict MsPending)
    → Unique m
    → (total unpaid (clear_approvals m) ≡ total unpaid m) × Unique (clear_approvals m)
unfolding total Unique clear_approvals
clear-accounts [] u = (refl, tt)
clear-accounts ((k, p) ∷ m) (n, u) =
    let (e, v) = clear-accounts m u in (omega (arith, e), (lookup-clear_none k m n, v))

module _ ⦃c : Crypto⦄ where
  submit-accounts :
      (claim : ReserveClaim) (r : MultisigReserve)
      → lookup claim.claim_id r.pending ≡ none
      → MsAccounts r
      → MsAccounts (ms_submit_claim claim r)
  unfolding ms_submit_claim
  submit-accounts claim r h (e, u) =
      let p : MsPending = record {
        operator_id = claim.operator_id;
        amount_sats = claim.reimbursement_sats;
        approvals = [];
        vetoed = false;
        finalized = false;
      } in
      (
        omega (arith, e, total-put_new unpaid claim.claim_id p r.pending h),
        put-Unique claim.claim_id p r.pending u,
      )

  veto-accounts : (h : Bytes) (r : MultisigReserve) → MsAccounts r → MsAccounts (veto_package h r).1
  unfolding veto_package
  veto-accounts h r a = elim (Option-cases (lookup h r.pending)) [
    | inl e ↦ rw (e, veto_package) a
    | inr (p, e) ↦
        rw (e, veto_package) (replace-accounts h {p = p} (record p { vetoed = true }) r e refl a)
  ]

  approve-accounts :
      (h : Bytes) (a : Approval) (r : MultisigReserve)
      → MsAccounts r
      → MsAccounts (add_approval h a r).1
  unfolding add_approval
  approve-accounts h a r i = elim (Option-cases (lookup h r.pending)) [
    | inl e ↦ rw (e, add_approval) i
    | inr (p, e) ↦
        elim (Bool-cases (
          (contains r.committee.pubkeys a.signer_pubkey
            && verify_ecdsa h a.signer_pubkey a.signature)
          && not (approved_by a.signer_pubkey p.approvals))) [
            | inl t ↦
                rw (e, t, add_approval)
                  (replace-accounts h {p = p} (record p { approvals = p.approvals ++ a ∷ [] }) r e
                    refl i)
            | inr t ↦ rw (e, t, add_approval) i
          ]
  ]

  reclaim-accounts :
      (h : Bytes) (r : MultisigReserve) → MsAccounts r → MsAccounts (ms_reclaim_stale h r).1
  unfolding ms_reclaim_stale
  reclaim-accounts h r (i, u) = elim (Option-cases (lookup h r.pending)) [
    | inl e ↦ rw (e, ms_reclaim_stale) (i, u)
    | inr (p, e) ↦ elim (Bool-cases p.finalized) [
      | inl t ↦ rw (e, t, ms_reclaim_stale) (i, u)
      | inr t ↦
          rw (e, t, ms_reclaim_stale)
            (
              ground (arith, i, t, total-remove unpaid h {v = p} r.pending e),
              remove-Unique h r.pending u,
            )
    ]
  ]

  finalize-accounts :
      (h : Bytes) (r : MultisigReserve) → MsAccounts r → MsAccounts (ms_finalize_claim h r).1
  finalize-accounts h r a = elim (ms_finalize_claim-cases h r) [
    | inl e ↦ rw e a
    | inr (spend, p, (l, f, _, _, _, _, _, e)) ↦ rw e (
      ground
          (arith, a.0, f, total-put unpaid h {v = p} (record p { finalized = true }) r.pending l),
      put-Unique h (record p { finalized = true }) r.pending a.1,
    )
  ]

  step-accounts : {r s : MultisigReserve} → MsStep r s → MsAccounts r → MsAccounts s
  unfolding ms_credit emergency_pause resume rotate_committee
  step-accounts (credit sats r) a = a
  step-accounts (submit claim r h) a = submit-accounts claim r h a
  step-accounts (approve h p r) a = approve-accounts h p r a
  step-accounts (veto h r) a = veto-accounts h r a
  step-accounts (pause reason r) a = a
  step-accounts (unpause r) a = a
  step-accounts (rotate new r) (e, u) =
      let (t, v) = clear-accounts r.pending u in (omega (arith, e, t), v)
  step-accounts (finalize h r) a = finalize-accounts h r a
  step-accounts (reclaim h r) a = reclaim-accounts h r a

  -- After any sequence of calls on a new multisig reserve in which no claim is submitted under an
  -- id that it holds, reserved_sats is the sum of the unpaid claims modulo 2^64, and no id stands
  -- twice.
  pub ms_reachable-MsAccounts : (r : MultisigReserve) → MsReachable r → MsAccounts r
  unfolding new_multisig total Unique
  ms_reachable-MsAccounts r (start _ _) = (refl, tt)
  ms_reachable-MsAccounts r (next m q) = step-accounts q (ms_reachable-MsAccounts _ m)
