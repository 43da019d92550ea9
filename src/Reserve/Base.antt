-- ===== src/Reserve/Base.antt =====
-- The types of the backends' interface, the committee, and the wrapping arithmetic.
use sats_usd.Base.{
  ℕ, ◌+◌, ◌-◌, ◌%◌, List, [], ◌∷◌, Bytes, not, ◌||◌, length, contains, if◌then◌else◌, u64_mod,
}
use sats_usd.Crypto.{Crypto, verify_ecdsa}
use sats_usd.Derive.{reserve_committee_hash}

pub record ReserveView : Type 0 where
  pub total_sats : ℕ
  pub reserved_sats : ℕ

-- `available_sats`: the truncated subtraction is `saturating_sub`.
unfoldable pub available_sats : ReserveView → ℕ
available_sats v = v.total_sats - v.reserved_sats

pub data FinalizeError : Type 0 where
  paused vetoed unknown_claim already_finalized : FinalizeError
  approval_insufficient : ℕ → ℕ → FinalizeError
  reserve_insufficient window_open disproven : FinalizeError

pub record ReserveSpend : Type 0 where
  pub claim_id : Bytes
  pub operator_id : Bytes
  pub amount_sats : ℕ

pub data PauseReason : Type 0 where
  state_node_bug funds_at_risk manual : PauseReason

pub record Committee : Type 0 where
  pub threshold : ℕ
  pub pubkeys : List Bytes

pub record Approval : Type 0 where
  pub signer_pubkey : Bytes
  pub signature : Bytes

unfoldable pub committee_hash : ⦃c : Crypto⦄ → Committee → Bytes
committee_hash k = reserve_committee_hash k.threshold k.pubkeys

-- `self.x += y` and `self.x -= y`.
abbrev pub wrapping_add : ℕ → ℕ → ℕ
wrapping_add a b = (a + b) % u64_mod

abbrev pub wrapping_sub : ℕ → ℕ → ℕ
wrapping_sub a b = (a + (u64_mod - b % u64_mod)) % u64_mod

module _ ⦃c : Crypto⦄ where
  -- The loop of `count_approvals`; the count is the number of signers seen.
  unfoldable pub approvers : Committee → Bytes → List Approval → List Bytes → List Bytes
  approvers committee claim_id [] seen = seen
  approvers committee claim_id (a ∷ approvals) seen =
      let counted = approvers committee claim_id approvals (a.signer_pubkey ∷ seen) in
      let skipped = approvers committee claim_id approvals seen in
      if not (contains committee.pubkeys a.signer_pubkey) || contains seen a.signer_pubkey
      then skipped
      else if verify_ecdsa claim_id a.signer_pubkey a.signature
      then counted
      else skipped

  unfoldable pub count_approvals : Committee → Bytes → List Approval → ℕ
  count_approvals committee claim_id approvals = length (approvers committee claim_id approvals [])
