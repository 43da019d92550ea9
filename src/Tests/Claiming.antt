-- ===== src/Tests/Claiming.antt =====
-- A claim finalized and a claim reclaimed.
use sats_usd.Base.{◌+◌, ◌≡◌, ◌≢◌, refl, List, [], ◌∷◌, ok}
use sats_usd.Crypto.{Crypto}
use sats_usd.Derive.{pending_claim_hash, reserve_committee_hash}
use sats_usd.Smt.{fold_to_root, leaf_hash}
use sats_usd.Types.{StateRoot, PendingClaim, PendingClaimStatus}
use sats_usd.Transition.{MultisigSig}
use sats_usd.Registry.{ReserveCommittee, apply_finalize_claim, apply_reclaim_stale_claim}
use sats_usd.Registry.Claims.{
  apply_finalize_claim_pays, apply_reclaim_stale_claim_frees, finalize_or_reclaim,
}
use sats_usd.Tests.Registering.{key, siblings, root_over, genesis, state_of}
use sats_usd.Tests.Toy.{toy}

abbrev claim : PendingClaim
claim = record {
  claim_id = key 6;
  operator_id = key 7;
  reserved_sats = 400;
  claim_created_height = 100;
  claim_expiry_height = 150;
  status = PendingClaimStatus.pending;
}

abbrev committee : ReserveCommittee
committee = record { threshold = 2; pubkeys = key 1 ∷ key 2 ∷ key 3 ∷ [] }

-- Three approvals of two members.
abbrev approvals : List MultisigSig
approvals =
    record { signer_pubkey = key 3; signature = key 3 }
    ∷ record { signer_pubkey = key 3; signature = key 3 }
    ∷ record { signer_pubkey = key 1; signature = key 1 }
    ∷ []

abbrev claimed : StateRoot
claimed = record genesis {
  pending_claim_root =
      root_over (key 6) (leaf_hash ⦃c = toy⦄ (key 6) (pending_claim_hash ⦃c = toy⦄ claim));
  reserve_committee_hash = reserve_committee_hash ⦃c = toy⦄ 2 (key 1 ∷ key 2 ∷ key 3 ∷ []);
}

abbrev paid : StateRoot
paid = state_of (apply_finalize_claim ⦃c = toy⦄ claimed claim siblings committee approvals 150)

abbrev reclaimed : StateRoot
reclaimed = state_of (apply_reclaim_stale_claim ⦃c = toy⦄ claimed claim siblings 151)

claim_finalizes :
    apply_finalize_claim ⦃c = toy⦄ claimed claim siblings committee approvals 150 ≡ ok paid
unfolding apply_finalize_claim reserve_committee_hash sats_usd.Crypto.tagged_hash
    sats_usd.Crypto.sha256 mathlib.Core.List.flatten sats_usd.Encoding.u8 sats_usd.Encoding.seq
    sats_usd.Derive.sort_unstable sats_usd.Encoding.fixed sats_usd.Transition.count_signers
    sats_usd.Crypto.verify_ecdsa sats_usd.Smt.verify_inclusion sats_usd.Smt.folds_to fold_to_root
    sats_usd.Smt.fold_levels sats_usd.Crypto.fr_to_be_bytes sats_usd.Smt.bit
    sats_usd.Crypto.poseidon2 sats_usd.Crypto.chunks_31 sats_usd.Crypto.fold_limbs
    sats_usd.Crypto.fr_from_be_bytes sats_usd.Crypto.hash_bytes sats_usd.Derive.bytes_leb
    sats_usd.Derive.insert_sorted pending_claim_hash sats_usd.Encoding.be_bytes
    sats_usd.Encoding.enum_u8 sats_usd.Encoding.seq_items sats_usd.Encoding.u32
    sats_usd.Encoding.u64 sats_usd.Smt.fold_step leaf_hash sats_usd.Smt.root_after_update
    sats_usd.Tier.collateral_ratio_ppm sats_usd.Tier.emergency_tier_u8 sats_usd.Tier.tier_of_ratio
    sats_usd.Transition.fe_scalar sats_usd.Transition.fe_split sats_usd.Transition.fold_fields
    sats_usd.Transition.next_state sats_usd.Transition.state_field_elements
    sats_usd.Transition.state_root_hash sats_usd.Transition.tier_fields
    sats_usd.Types.encode_pending_claim sats_usd.Types.pending_claim_status_u8
    sats_usd.Types.transition_type_u8
claim_finalizes = refl

claim_reclaims : apply_reclaim_stale_claim ⦃c = toy⦄ claimed claim siblings 151 ≡ ok reclaimed
unfolding apply_reclaim_stale_claim sats_usd.Smt.verify_inclusion sats_usd.Smt.folds_to fold_to_root
    sats_usd.Smt.fold_levels sats_usd.Crypto.fr_to_be_bytes sats_usd.Smt.bit
    sats_usd.Crypto.poseidon2 sats_usd.Crypto.fr_from_be_bytes leaf_hash sats_usd.Crypto.hash_bytes
    pending_claim_hash sats_usd.Crypto.tagged_hash sats_usd.Crypto.sha256 mathlib.Core.List.flatten
    sats_usd.Types.encode_pending_claim sats_usd.Encoding.fixed sats_usd.Encoding.u64
    sats_usd.Crypto.chunks_31 sats_usd.Crypto.fold_limbs sats_usd.Encoding.be_bytes
    sats_usd.Encoding.enum_u8 sats_usd.Encoding.u32 sats_usd.Encoding.u8 sats_usd.Smt.fold_step
    sats_usd.Smt.root_after_update sats_usd.Transition.fe_scalar sats_usd.Transition.fe_split
    sats_usd.Transition.fold_fields sats_usd.Transition.next_state
    sats_usd.Transition.state_field_elements sats_usd.Transition.state_root_hash
    sats_usd.Types.pending_claim_status_u8 sats_usd.Types.transition_type_u8
claim_reclaims = refl

apply_finalize_claim_pays_example : paid.reserve_btc_sats + 400 ≡ 500000
apply_finalize_claim_pays_example =
    (apply_finalize_claim_pays ⦃c = toy⦄ claimed paid claim siblings committee approvals 150
      claim_finalizes).5

apply_reclaim_stale_claim_frees_example : reclaimed.reserved_pending_claim_sats + 400 ≡ 900
apply_reclaim_stale_claim_frees_example =
    (apply_reclaim_stale_claim_frees ⦃c = toy⦄ claimed reclaimed claim siblings 151
      claim_reclaims).3

finalize_or_reclaim_example :
    apply_reclaim_stale_claim ⦃c = toy⦄ claimed claim siblings 150 ≢ ok reclaimed
finalize_or_reclaim_example =
    finalize_or_reclaim ⦃c = toy⦄ claimed paid claimed reclaimed claim siblings siblings committee
      approvals 150 claim_finalizes
