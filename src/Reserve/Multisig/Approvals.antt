-- ===== src/Reserve/Multisig/Approvals.antt =====
-- Whose approvals `MultisigReserve` counts.
use sats_usd.Base.{
  ◌⊎◌, ◌==◌, ◌≡◌, ◌≢◌, refl, List, [], ◌∷◌, Bytes, some, not, ◌||◌, ok, arith, contains, All,
  Bool-cases, Option-cases, inl, inr,
}
use sats_usd.Base.Dict.{Dict, lookup}
use sats_usd.Crypto.{Crypto, verify_ecdsa}
use sats_usd.Transition.Signers.{Distinct, IsSigner, AreSigners, HasQuorum}
use sats_usd.Reserve.Base.{ReserveSpend, Committee, Approval, approvers, count_approvals}
use sats_usd.Reserve.Multisig.{
  MsPending, MultisigReserve, ms_finalize_claim, approval_count, clear_approvals, rotate_committee,
}
use sats_usd.Reserve.Multisig.Payout.{ms_finalize_claim-Paid}

module _ ⦃c : Crypto⦄ (committee : Committee) (claim_id : Bytes) where
  approvers-IsSigner :
      (approvals : List Approval) (seen : List Bytes)
      → Distinct seen
      → All (IsSigner claim_id committee.pubkeys) seen
      → Distinct (approvers committee claim_id approvals seen)
        × All (IsSigner claim_id committee.pubkeys) (approvers committee claim_id approvals seen)
  unfolding approvers
  approvers-IsSigner [] seen d s = (d, s)
  approvers-IsSigner (a ∷ approvals) seen d s =
      elim (Bool-cases
        (not (contains committee.pubkeys a.signer_pubkey) || contains seen a.signer_pubkey)) [
          | inl skip ↦ rw skip (approvers-IsSigner approvals seen d s)
          | inr fresh ↦ elim (Bool-cases (verify_ecdsa claim_id a.signer_pubkey a.signature)) [
            | inl good ↦
                rw (fresh, good)
                  (approvers-IsSigner approvals (a.signer_pubkey ∷ seen) (ground arith, d)
                    ((ground arith, (a.signature, good)), s))
            | inr bad ↦ rw (fresh, bad) (approvers-IsSigner approvals seen d s)
          ]
        ]

  -- `count_approvals` is a number of distinct members of the committee, each with a signature
  -- over the claim's id that verifies.
  pub count_approvals-AreSigners :
      (approvals : List Approval)
      → AreSigners claim_id committee.pubkeys (count_approvals committee claim_id approvals)
  unfolding count_approvals
  count_approvals-AreSigners approvals =
      let (d, s) = approvers-IsSigner approvals [] tt tt in
      (approvers committee claim_id approvals [], refl, d, s)

module _ ⦃c : Crypto⦄ where
  -- The multisig reserve pays only where distinct members of the committee in office, as many as
  -- the threshold or more, have signed the claim's id.
  pub ms_finalize_claim-HasQuorum :
      (h : Bytes) (r s : MultisigReserve) (spend : ReserveSpend)
      → ms_finalize_claim h r ≡ (ok spend, s)
      → HasQuorum h r.committee.pubkeys r.committee.threshold
  unfolding approval_count
  ms_finalize_claim-HasQuorum h r s spend f =
      let (p, (l, _, _, _, enough, _, _, _)) = ms_finalize_claim-Paid h r s spend f in
      (
        count_approvals r.committee h p.approvals,
        ground arith,
        count_approvals-AreSigners r.committee h p.approvals,
      )

  lookup-clear_approvals :
      (h : Bytes) (m : Dict MsPending) (p : MsPending)
      → lookup h (clear_approvals m) ≡ some p
      → p.approvals ≡ []
  unfolding lookup clear_approvals
  lookup-clear_approvals h [] p e = absurd (cc)
  lookup-clear_approvals h ((k, q) ∷ m) p e = ground (arith, lookup-clear_approvals h m p)

  rotate_committee-approval_count :
      (new : Committee) (h : Bytes) (r : MultisigReserve)
      → approval_count h (rotate_committee new r) ≡ 0
  unfolding rotate_committee approval_count count_approvals approvers
  rotate_committee-approval_count new h r =
      elim (Option-cases (lookup h (clear_approvals r.pending))) [
        | inl e ↦ ground arith
        | inr (p, e) ↦ ground (arith, lookup-clear_approvals h r.pending p e)
      ]

  -- After a rotation of the committee, to whatever new committee, every claim counts no approval,
  -- and either the new threshold is zero or no finalize_claim then pays.
  pub rotate_committee-ms_finalize_claim :
      (new : Committee) (h : Bytes) (r s : MultisigReserve) (spend : ReserveSpend)
      → (approval_count h (rotate_committee new r) ≡ 0)
        × ((new.threshold ≡ 0) ⊎ (ms_finalize_claim h (rotate_committee new r) ≢ (ok spend, s)))
  unfolding rotate_committee
  rotate_committee-ms_finalize_claim new h r s spend = (
    rotate_committee-approval_count new h r,
    elim (Bool-cases (new.threshold == 0)) [
      | inl none_needed ↦ inl (ground (arith, none_needed))
      | inr needed ↦ inr λ f.
          let (p, (l, _, _, _, enough, _, _, _)) =
            ms_finalize_claim-Paid h (rotate_committee new r) s spend f in
          absurd (ground (arith, needed, rotate_committee-approval_count new h r, enough))
    ],
  )
