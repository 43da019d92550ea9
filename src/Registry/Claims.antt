-- ===== src/Registry/Claims.antt =====
-- RECLAIM_STALE_CLAIM and FINALIZE_CLAIM: the end of a pending claim.
use sats_usd.Base.{ℕ, ◌+◌, ◌≤◌, ◌<◌, ◌≡◌, ◌≢◌, List, [], Bytes, ok, arith, true, bytes_eq→eq, value}
use sats_usd.Crypto.{Crypto}
use sats_usd.Derive.{pending_claim_hash, reserve_committee_hash}
use sats_usd.Smt.{verify_inclusion, root_after_update}
use sats_usd.Transition.{MultisigSig, next_state, count_signers}
use sats_usd.Transition.Signers.{HasQuorum, count_signers-AreSigners}
use sats_usd.Types.{PendingClaim, PendingClaimStatus, StateRoot}
use sats_usd.Registry.{
  ReserveCommittee, apply_reclaim_stale_claim, apply_finalize_claim, is_reclaimable,
}

module _ ⦃c : Crypto⦄ (prev new : StateRoot) (claim : PendingClaim) (proof : List Bytes) where
  -- An accepted FINALIZE_CLAIM met a pending, unexpired claim of the tree approved by a quorum of
  -- the committed committee; it takes the claim's sats from the reserve and the reservations
  -- exactly, keeps the supply, and writes the finalized claim.
  pub apply_finalize_claim_pays :
      (committee : ReserveCommittee) (approvals : List MultisigSig) (height : ℕ)
      → apply_finalize_claim prev claim proof committee approvals height ≡ ok new
      → (claim.status ≡ PendingClaimStatus.pending)
        × (height ≤ claim.claim_expiry_height)
        × (reserve_committee_hash committee.threshold committee.pubkeys
            ≡ prev.reserve_committee_hash)
        × HasQuorum claim.claim_id committee.pubkeys committee.threshold
        × (verify_inclusion prev.pending_claim_root claim.claim_id (pending_claim_hash claim) proof
            ≡ true)
        × (new.reserve_btc_sats + claim.reserved_sats ≡ prev.reserve_btc_sats)
        × (new.reserved_pending_claim_sats + claim.reserved_sats ≡ prev.reserved_pending_claim_sats)
        × (new.sat_usd_supply_atoms ≡ prev.sat_usd_supply_atoms)
        × (root_after_update claim.claim_id
              (pending_claim_hash (record claim { status = PendingClaimStatus.finalized }))
              proof
            ≡ value new.pending_claim_root)
  unfolding apply_finalize_claim next_state
  apply_finalize_claim_pays committee approvals height h = (
    ground arith,
    ground arith,
    ground (
      arith,
      bytes_eq→eq (reserve_committee_hash committee.threshold committee.pubkeys)
          prev.reserve_committee_hash,
    ),
    (
      count_signers claim.claim_id committee.pubkeys approvals [] 0,
      ground arith,
      count_signers-AreSigners claim.claim_id committee.pubkeys approvals,
    ),
    ground arith,
    ground arith,
    ground arith,
    ground arith,
    ground arith,
  )

  -- An accepted RECLAIM_STALE_CLAIM met a pending or challenged claim of the tree past its expiry;
  -- it releases the reservation exactly and touches neither reserve nor supply.
  pub apply_reclaim_stale_claim_frees :
      (height : ℕ)
      → apply_reclaim_stale_claim prev claim proof height ≡ ok new
      → (is_reclaimable claim.status ≡ true)
        × (claim.claim_expiry_height < height)
        × (verify_inclusion prev.pending_claim_root claim.claim_id (pending_claim_hash claim) proof
            ≡ true)
        × (new.reserved_pending_claim_sats + claim.reserved_sats ≡ prev.reserved_pending_claim_sats)
        × (new.reserve_btc_sats ≡ prev.reserve_btc_sats)
        × (new.sat_usd_supply_atoms ≡ prev.sat_usd_supply_atoms)
        × (root_after_update claim.claim_id
              (pending_claim_hash (record claim { status = PendingClaimStatus.reclaimed }))
              proof
            ≡ value new.pending_claim_root)
  unfolding apply_reclaim_stale_claim next_state
  apply_reclaim_stale_claim_frees height h = (
    ground arith,
    ground arith,
    ground arith,
    ground arith,
    ground arith,
    ground arith,
    ground arith,
  )

-- Where a claim is finalized at a height, no state accepts a reclaim of it at that height.
pub finalize_or_reclaim :
    ⦃c : Crypto⦄ (prev new prev' new' : StateRoot) (claim : PendingClaim)
    (proof proof' : List Bytes) (committee : ReserveCommittee) (approvals : List MultisigSig)
    (height : ℕ)
    → apply_finalize_claim prev claim proof committee approvals height ≡ ok new
    → apply_reclaim_stale_claim prev' claim proof' height ≢ ok new'
finalize_or_reclaim prev new prev' new' claim proof proof' committee approvals height f r = omega (
  arith,
  (apply_finalize_claim_pays prev new claim proof committee approvals height f).1,
  (apply_reclaim_stale_claim_frees prev' new' claim proof' height r).1,
)
