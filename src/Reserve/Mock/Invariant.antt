-- ===== src/Reserve/Mock/Invariant.antt =====
-- The accounting of `MockReserve`, over every sequence of calls.
use sats_usd.Base.{
  ℕ, ◌<◌, ◌+◌, ◌%◌, ◌≡◌, refl, Bytes, none, some, ok, arith, u64_mod, ltb, Bool-cases, Option-cases,
  inl, inr, err,
}
use sats_usd.Base.Dict.{
  lookup, put, remove, Unique, total, put-Unique, remove-Unique, total-remove, total-put_new,
  lookup-remove_self,
}
use sats_usd.Types.{ReserveClaim}
use sats_usd.Reserve.Base.{unknown_claim, ReserveSpend, wrapping_sub}
use sats_usd.Reserve.Mock.{
  Pending, MockReserve, new_mock, mock_credit, mock_submit_claim, mock_finalize_claim,
  mock_reclaim_stale,
}

-- One call of the backend; a claim is submitted under an id that is not pending.
pub data MockStep : MockReserve → MockReserve → Type 0 where
  credit : (sats : ℕ) (r : MockReserve) → MockStep r (mock_credit sats r)
  submit :
      (claim : ReserveClaim) (r : MockReserve)
      → lookup claim.claim_id r.pending ≡ none
      → MockStep r (mock_submit_claim claim r)
  finalize : (h : Bytes) (r : MockReserve) → MockStep r (mock_finalize_claim h r).1
  reclaim : (h : Bytes) (r : MockReserve) → MockStep r (mock_reclaim_stale h r).1

pub data MockReachable : ℕ → MockReserve → Type 0 where
  start : (sats : ℕ) → MockReachable sats (new_mock sats)
  next : {sats : ℕ} {r s : MockReserve} → MockReachable sats r → MockStep r s → MockReachable sats s

-- `reserved_sats` is what the pending claims come to, and no id is pending twice.
abbrev pub MockAccounts : MockReserve → Type 0
MockAccounts r =
    (r.reserved_sats ≡ total (λ p. p.amount_sats) r.pending % u64_mod) × Unique r.pending

mock_submit-accounts :
    (claim : ReserveClaim) (r : MockReserve)
    → lookup claim.claim_id r.pending ≡ none
    → MockAccounts r
    → MockAccounts (mock_submit_claim claim r)
unfolding mock_submit_claim
mock_submit-accounts claim r h (e, u) = (
  omega (
    arith,
    e,
    total-put_new (λ p. p.amount_sats) claim.claim_id
        (record { operator_id = claim.operator_id; amount_sats = claim.reimbursement_sats })
        r.pending h,
  ),
  put-Unique claim.claim_id
      (record { operator_id = claim.operator_id; amount_sats = claim.reimbursement_sats }) r.pending
      u,
)

-- Taking a claim out gives its sats back.
release-accounts :
    (h : Bytes) {p : Pending} (r : MockReserve)
    → lookup h r.pending ≡ some p
    → MockAccounts r
    → (wrapping_sub r.reserved_sats p.amount_sats
        ≡ total (λ q. q.amount_sats) (remove h r.pending) % u64_mod)
      × Unique (remove h r.pending)
release-accounts h {p = p} r l (e, u) = (
  omega (arith, e, total-remove (λ q. q.amount_sats) h {v = p} r.pending l),
  remove-Unique h r.pending u,
)

mock_reclaim-accounts :
    (h : Bytes) (r : MockReserve) → MockAccounts r → MockAccounts (mock_reclaim_stale h r).1
unfolding mock_reclaim_stale
mock_reclaim-accounts h r a = elim (Option-cases (lookup h r.pending)) [
  | inl e ↦ rw (e, mock_reclaim_stale) a
  | inr (p, e) ↦ rw (e, mock_reclaim_stale) (release-accounts h {p = p} r e a)
]

-- A claim put back where it was taken out.
restore-accounts :
    (h : Bytes) (p : Pending) (r : MockReserve)
    → lookup h r.pending ≡ some p
    → MockAccounts r
    → MockAccounts (record r { pending = put h p (remove h r.pending) })
restore-accounts h p r l (e, u) = (
  omega (
    arith,
    e,
    total-remove (λ q. q.amount_sats) h {v = p} r.pending l,
    total-put_new (λ q. q.amount_sats) h p (remove h r.pending) (lookup-remove_self h r.pending u),
  ),
  put-Unique h p (remove h r.pending) (remove-Unique h r.pending u),
)

mock_finalize-accounts :
    (h : Bytes) (r : MockReserve) → MockAccounts r → MockAccounts (mock_finalize_claim h r).1
unfolding mock_finalize_claim
mock_finalize-accounts h r a = elim (Option-cases (lookup h r.pending)) [
  | inl e ↦ rw (e, mock_finalize_claim) a
  | inr (p, e) ↦ elim (Bool-cases (ltb r.total_sats p.amount_sats)) [
    | inl t ↦ rw (e, t, mock_finalize_claim) (restore-accounts h p r e a)
    | inr t ↦ rw (e, t, mock_finalize_claim) (release-accounts h {p = p} r e a)
  ]
]

MockStep-accounts : {r s : MockReserve} → MockStep r s → MockAccounts r → MockAccounts s
unfolding mock_credit
MockStep-accounts (credit sats r) a = a
MockStep-accounts (submit claim r h) a = mock_submit-accounts claim r h a
MockStep-accounts (finalize h r) a = mock_finalize-accounts h r a
MockStep-accounts (reclaim h r) a = mock_reclaim-accounts h r a

-- After any sequence of calls on a new mock reserve in which no claim is submitted while its id is
-- pending, reserved_sats is the sum of the pending claims modulo 2^64, and no id is pending twice.
pub mock_reachable-MockAccounts :
    (sats : ℕ) (r : MockReserve) → MockReachable sats r → MockAccounts r
unfolding new_mock total Unique
mock_reachable-MockAccounts sats r (start _) = (refl, tt)
mock_reachable-MockAccounts sats r (next m q) =
    MockStep-accounts q (mock_reachable-MockAccounts sats _ m)

-- Where the mock reserve's accounts hold and its total is a u64, a claim that it pays was pending
-- with the spend's operator and amount, the total goes down exactly by that amount, and a second
-- finalize_claim finds no claim.
pub mock_finalize_claim-once :
    (h : Bytes) (r s : MockReserve) (spend : ReserveSpend)
    → MockAccounts r
    → r.total_sats < u64_mod
    → mock_finalize_claim h r ≡ (ok spend, s)
    → (lookup h r.pending
        ≡ some (record { operator_id = spend.operator_id; amount_sats = spend.amount_sats }))
      × (spend.claim_id ≡ h)
      × (s.total_sats + spend.amount_sats ≡ r.total_sats)
      × (mock_finalize_claim h s ≡ (err unknown_claim, s))
unfolding mock_finalize_claim
mock_finalize_claim-once h r s spend (e, u) b f = ground (arith, lookup-remove_self h r.pending u)
