-- ===== src/Reserve/Multisig/Payout.antt =====
-- When `MultisigReserve::finalize_claim` pays.
use sats_usd.Base.{
  ◌+◌, ◌<◌, ◌≤◌, ◌≡◌, ◌⊎◌, refl, Bytes, none, some, true, false, Result, ok, err, panic, arith,
  u64_mod, Option-cases, inl, inr,
}
use sats_usd.Base.Dict.{lookup, put, lookup-put_self}
use sats_usd.Crypto.{Crypto}
use sats_usd.Reserve.Base.{FinalizeError, already_finalized, ReserveSpend, wrapping_sub}
use sats_usd.Reserve.Multisig.{MsPending, MultisigReserve, ms_finalize_claim, approval_count}

module _ ⦃c : Crypto⦄ where
  -- What stands before a payment of the claim `p` and after it.
  abbrev pub Paid : Bytes → MultisigReserve → MsPending → ReserveSpend → MultisigReserve → Type 0
  Paid h r p spend s =
      (lookup h r.pending ≡ some p)
      × (p.finalized ≡ false)
      × (p.vetoed ≡ false)
      × (r.paused ≡ none)
      × (r.committee.threshold ≤ approval_count h r)
      × (p.amount_sats ≤ r.total_sats)
      × (spend
          ≡ (record { claim_id = h; operator_id = p.operator_id; amount_sats = p.amount_sats }))
      × (s ≡ (record r {
        total_sats = wrapping_sub r.total_sats p.amount_sats;
        reserved_sats = wrapping_sub r.reserved_sats p.amount_sats;
        pending = put h (record p { finalized = true }) r.pending;
      }))

  pub ms_finalize_claim-Paid :
      (h : Bytes) (r s : MultisigReserve) (spend : ReserveSpend)
      → ms_finalize_claim h r ≡ (ok spend, s)
      → (p : MsPending) × Paid h r p spend s
  unfolding ms_finalize_claim
  ms_finalize_claim-Paid h r s spend f = elim (Option-cases (lookup h r.pending)) [
    | inl e ↦ ground arith
    | inr (p, e) ↦ (p, ground arith)
  ]

  -- A call pays, or it changes nothing.
  pub ms_finalize_claim-cases :
      (h : Bytes) (r : MultisigReserve)
      → ((ms_finalize_claim h r).1 ≡ r)
        ⊎ ((spend : ReserveSpend) × (p : MsPending) × Paid h r p spend (ms_finalize_claim h r).1)
  unfolding ms_finalize_claim
  ms_finalize_claim-cases h r = go (ms_finalize_claim h r) refl
    where
      go :
          (o : Result FinalizeError ReserveSpend × MultisigReserve)
          → ms_finalize_claim h r ≡ o
          → (o.1 ≡ r) ⊎ ((spend : ReserveSpend) × (p : MsPending) × Paid h r p spend o.1)
      go (ok spend, s) f = let (p, q) = ms_finalize_claim-Paid h r s spend f in inr (spend, p, q)
      go (err e, s) f = inl (ground arith)
      go (panic, s) f = inl (ground arith)

  -- Where the multisig reserve's total is a u64, a claim that it pays was pending, unpaid, not
  -- vetoed and approved to the threshold, the reserve not paused; the total goes down exactly by
  -- its amount, and a second finalize_claim answers already_finalized and changes nothing.
  pub ms_finalize_claim-once :
      (h : Bytes) (r s : MultisigReserve) (spend : ReserveSpend)
      → r.total_sats < u64_mod
      → ms_finalize_claim h r ≡ (ok spend, s)
      → (p : MsPending) × (lookup h r.pending ≡ some p)
        × (p.finalized ≡ false)
        × (p.vetoed ≡ false)
        × (r.paused ≡ none)
        × (r.committee.threshold ≤ approval_count h r)
        × (spend.amount_sats ≡ p.amount_sats)
        × (s.total_sats + p.amount_sats ≡ r.total_sats)
        × (ms_finalize_claim h s ≡ (err already_finalized, s))
  unfolding ms_finalize_claim
  ms_finalize_claim-once h r s spend b f =
      let (p, (l, e1, e2, e3, e4, e5, e6, e7)) = ms_finalize_claim-Paid h r s spend f in
      (
        p,
        l,
        e1,
        e2,
        e3,
        e4,
        ground arith,
        ground arith,
        ground (arith, lookup-put_self h (record p { finalized = true }) r.pending),
      )
