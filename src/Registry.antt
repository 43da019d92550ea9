-- ===== src/Registry.antt =====
-- crates/satusd-state/src/registry.rs
pub mod Claims
pub mod Keys
pub mod Members
use sats_usd.Base.{
  ℕ, ◌+◌, List, [], ◌∷◌, Bytes, Bool, true, false, not, ◌&&◌, ◌||◌, Option, none, some, Result, ok,
  err, panic, ◌>>=◌, ◌>>◌, ensure, ok_or, run, length, leb, ltb, ◌==◌, bytes_eq, contains,
  checked_mul, checked_sub, if◌then◌else◌,
}
use sats_usd.Crypto.{Crypto}
use sats_usd.Derive.{
  issuer_position_hash, operator_position_hash, pending_claim_hash, reserve_committee_hash,
}
use sats_usd.Mint.{is_none, is_active}
use sats_usd.Smt.{verify_inclusion, verify_exclusion, root_after_update}
use sats_usd.Transition.{MultisigSig, next_state, count_signers, tier_fields, verified}
use sats_usd.Types.{
  IssuerPosition, OperatorPosition, operator_status_u8, PendingClaim, PendingClaimStatus,
  pending_claim_status_u8, StateRoot, TransitionType,
}

pub record ReserveCommittee : Type 0 where
  pub threshold : ℕ
  pub pubkeys : List Bytes

abbrev pub operator_bond_multiple : ℕ
operator_bond_multiple = 2

pub data RegistryRejectReason : Type 0 where
  bad_state_linkage wrong_transition_type post_state_mismatch overflow : RegistryRejectReason
  issuer_already_registered issuer_not_fresh bad_multisig_config : RegistryRejectReason
  operator_already_registered operator_not_fresh zero_max_claim bond_insufficient :
      RegistryRejectReason
  claim_not_present claim_not_reclaimable claim_not_expired : RegistryRejectReason
  claim_not_pending claim_expired reserve_insufficient committee_mismatch : RegistryRejectReason
  approval_insufficient : RegistryRejectReason

-- `fresh` of `apply_issuer_register`.
unfoldable pub fresh_issuer : IssuerPosition → Bool
fresh_issuer p =
    is_active p
    && p.minted_satusd_atoms == 0
    && p.pending_mint_atoms == 0
    && p.reserve_deposits_sats == 0
    && p.collateral_ratio_ppm == 0
    && is_none p.pending_mint_commitment
    && is_none p.last_deposit_txid
    && is_none p.freeze_reason

-- The loop that finds a repeated key.
unfoldable pub distinct_keys : List Bytes → List Bytes → Result RegistryRejectReason (Unit {0})
distinct_keys [] seen = ok tt
distinct_keys (pk ∷ pks) seen = do
  ensure (not (contains seen pk)) bad_multisig_config
  distinct_keys pks (pk ∷ seen)

-- `matches!(status, Pending | Challenged)` and `status == Pending`.
abbrev pub is_pending : PendingClaimStatus → Bool
is_pending PendingClaimStatus.pending = true
is_pending _ = false

abbrev pub is_reclaimable : PendingClaimStatus → Bool
is_reclaimable PendingClaimStatus.pending = true
is_reclaimable PendingClaimStatus.challenged = true
is_reclaimable _ = false

module _ ⦃c : Crypto⦄ where
  unfoldable pub apply_issuer_register :
      StateRoot → IssuerPosition → List Bytes → Result RegistryRejectReason StateRoot
  apply_issuer_register prev new_issuer issuer_exclusion_proof = do
    ensure (fresh_issuer new_issuer) issuer_not_fresh
    let n = length new_issuer.multisig_pubkeys
    ensure (ltb 0 n && (leb 1 new_issuer.multisig_threshold && leb new_issuer.multisig_threshold n))
        bad_multisig_config
    distinct_keys new_issuer.multisig_pubkeys []
    ensure (verify_exclusion prev.issuer_positions_root new_issuer.issuer_id issuer_exclusion_proof)
        issuer_already_registered
    let advanced = next_state prev TransitionType.issuer_register
    new_root ← run (
        root_after_update new_issuer.issuer_id (issuer_position_hash new_issuer)
          issuer_exclusion_proof)
    ok (record advanced { issuer_positions_root = new_root })

  unfoldable pub verify_issuer_register :
      StateRoot → StateRoot → IssuerPosition → List Bytes → Result RegistryRejectReason (Unit {0})
  verify_issuer_register prev new new_issuer issuer_exclusion_proof =
      verified post_state_mismatch (apply_issuer_register prev new_issuer issuer_exclusion_proof)
        new

  unfoldable pub apply_operator_register :
      StateRoot → OperatorPosition → List Bytes → Result RegistryRejectReason StateRoot
  apply_operator_register prev new_op operator_exclusion_proof = do
    ensure
        (operator_status_u8 new_op.status == 0
          && (new_op.outstanding_claim_sats == 0 && new_op.slashed_sats == 0))
        operator_not_fresh
    ensure (ltb 0 new_op.max_claim_sats) zero_max_claim
    required ← ok_or (checked_mul new_op.max_claim_sats operator_bond_multiple) overflow
    ensure (leb required new_op.bond_sats) bond_insufficient
    ensure
        (verify_exclusion prev.operator_registry_root new_op.operator_id operator_exclusion_proof)
        operator_already_registered
    let advanced = next_state prev TransitionType.operator_register
    new_root ← run (
        root_after_update new_op.operator_id (operator_position_hash new_op)
          operator_exclusion_proof)
    ok (record advanced { operator_registry_root = new_root })

  unfoldable pub verify_operator_register :
      StateRoot → StateRoot → OperatorPosition → List Bytes → Result RegistryRejectReason (Unit {0})
  verify_operator_register prev new new_op operator_exclusion_proof =
      verified post_state_mismatch (apply_operator_register prev new_op operator_exclusion_proof)
        new

  unfoldable pub apply_reclaim_stale_claim :
      StateRoot → PendingClaim → List Bytes → ℕ → Result RegistryRejectReason StateRoot
  apply_reclaim_stale_claim prev prev_claim claim_membership_proof current_height = do
    ensure (is_reclaimable prev_claim.status) claim_not_reclaimable
    ensure (ltb prev_claim.claim_expiry_height current_height) claim_not_expired
    ensure
        (verify_inclusion prev.pending_claim_root prev_claim.claim_id
          (pending_claim_hash prev_claim) claim_membership_proof)
        claim_not_present
    let reclaimed = record prev_claim { status = PendingClaimStatus.reclaimed }
    new_reserved ←
        ok_or (checked_sub prev.reserved_pending_claim_sats prev_claim.reserved_sats) overflow
    let advanced = next_state prev TransitionType.reclaim_stale_claim
    new_root ← run (
        root_after_update prev_claim.claim_id (pending_claim_hash reclaimed) claim_membership_proof)
    ok (record advanced {
      reserved_pending_claim_sats = new_reserved;
      pending_claim_root = new_root;
    })

  unfoldable pub verify_reclaim_stale_claim :
      StateRoot → StateRoot → PendingClaim → List Bytes → ℕ → Result RegistryRejectReason (Unit {0})
  verify_reclaim_stale_claim prev new prev_claim claim_membership_proof current_height =
      verified post_state_mismatch
        (apply_reclaim_stale_claim prev prev_claim claim_membership_proof current_height) new

  unfoldable pub apply_finalize_claim :
      StateRoot
      → PendingClaim
      → List Bytes
      → ReserveCommittee
      → List MultisigSig
      → ℕ
      → Result RegistryRejectReason StateRoot
  apply_finalize_claim prev prev_claim claim_membership_proof committee approvals current_height =
      do
        ensure (is_pending prev_claim.status) claim_not_pending
        ensure (leb current_height prev_claim.claim_expiry_height) claim_expired
        ensure
            (bytes_eq (reserve_committee_hash committee.threshold committee.pubkeys)
              prev.reserve_committee_hash)
            committee_mismatch
        let approved = count_signers prev_claim.claim_id committee.pubkeys approvals [] 0
        ensure (leb committee.threshold approved) approval_insufficient
        ensure
            (verify_inclusion prev.pending_claim_root prev_claim.claim_id
              (pending_claim_hash prev_claim) claim_membership_proof)
            claim_not_present
        new_reserved ←
            ok_or (checked_sub prev.reserved_pending_claim_sats prev_claim.reserved_sats) overflow
        new_reserve ←
            ok_or (checked_sub prev.reserve_btc_sats prev_claim.reserved_sats) reserve_insufficient
        let finalized = record prev_claim { status = PendingClaimStatus.finalized }
        let advanced = next_state prev TransitionType.finalize_claim
        (ratio, new_tier) ←
            run (tier_fields new_reserve prev.sat_usd_supply_atoms prev.latest_oracle_price_e8)
        new_root ← run (
            root_after_update prev_claim.claim_id (pending_claim_hash finalized)
              claim_membership_proof)
        ok (record advanced {
          reserved_pending_claim_sats = new_reserved;
          reserve_btc_sats = new_reserve;
          collateral_ratio_ppm = ratio;
          emergency_tier = new_tier;
          pending_claim_root = new_root;
        })

  unfoldable pub verify_finalize_claim :
      StateRoot
      → StateRoot
      → PendingClaim
      → List Bytes
      → ReserveCommittee
      → List MultisigSig
      → ℕ
      → Result RegistryRejectReason (Unit {0})
  verify_finalize_claim prev new prev_claim claim_membership_proof committee approvals
        current_height =
      verified post_state_mismatch
        (apply_finalize_claim prev prev_claim claim_membership_proof committee approvals
          current_height)
        new
