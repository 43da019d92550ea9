-- ===== src/Transition.antt =====
-- What every transition verifier shares: `state_root_hash` (crates/satusd-crypto/src/state.rs),
-- and `next_state`, `verified`, the signature count and the tier fields, which mint.rs,
-- registry.rs and redeem.rs of crates/satusd-state/src each spell out alike.
pub mod Laws
pub mod Signers
use mathlib.Core.Logic.{ite}
use sats_usd.Base.{
  ℕ, ◌+◌, ◌%◌, ◌^◌, List, [], ◌∷◌, ◌++◌, Bytes, Bool, true, false, not, ◌&&◌, ◌||◌, Option, none,
  some, Eval, value, panicked, Result, ok, err, panic, length, take, drop, contains, if◌then◌else◌,
  u64_mod,
}
use sats_usd.Crypto.{Crypto, fr_to_be_bytes, fr_from_be_bytes, poseidon2, verify_ecdsa}
use sats_usd.Tier.{collateral_ratio_ppm, recompute_tier, tier_of_ratio, emergency_tier_u8}
use sats_usd.Types.{StateRoot, StateRoot-discrete, TransitionType, transition_type_u8}

-- `mint::MultisigSig`.
pub record MultisigSig : Type 0 where
  pub signer_pubkey : Bytes
  pub signature : Bytes

module _ ⦃c : Crypto⦄ where
  unfoldable pub fe_scalar : ℕ → Bytes
  fe_scalar x = fr_to_be_bytes (c.fr_from x)

  -- `hash_field`: the two limbs of `fe_split`, high then low, in front of what follows.
  unfoldable pub fe_split : Bytes → List Bytes → List Bytes
  fe_split b rest =
      fr_to_be_bytes (fr_from_be_bytes (take 16 b))
      ∷ fr_to_be_bytes (fr_from_be_bytes (take 16 (drop 16 b)))
      ∷ rest

  unfoldable pub state_field_elements : StateRoot → List Bytes
  state_field_elements s =
      fe_scalar s.protocol_version
      ∷ fe_scalar s.state_epoch
      ∷ fe_split s.prev_state_root (
          fe_scalar s.transition_type
          ∷ fe_split s.satusd_asset_family_id (
              fe_scalar s.sat_usd_supply_atoms
              ∷ fe_scalar s.reserve_btc_sats
              ∷ fe_scalar s.reserved_pending_claim_sats
              ∷ fe_scalar s.collateral_ratio_ppm
              ∷ fe_scalar s.emergency_tier
              ∷ fe_split s.oracle_set_hash (
                  fe_scalar s.oracle_set_epoch
                  ∷ fe_scalar s.latest_oracle_epoch_seen
                  ∷ fe_scalar s.latest_oracle_price_e8
                  ∷ fe_split s.reserve_committee_hash (
                      fe_split s.issuer_positions_root (
                        fe_split s.operator_registry_root (
                          fe_split s.lock_record_root (
                            fe_split s.lock_consumed_root (
                              fe_split s.lock_refund_root (
                                fe_split s.redemption_nullifier_root (
                                  fe_split s.pending_claim_root (
                                    fe_split s.live_da_root (
                                      fe_split s.archival_da_root (
                                        fe_split s.l1_anchor_hash (
                                          fe_scalar s.l1_anchor_height
                                          ∷ fe_scalar s.l1_anchor_mtp
                                          ∷ fe_scalar s.l1_anchor_chain_time
                                          ∷ []))))))))))))))

  -- `acc = poseidon2(acc, field)` over the field elements.
  unfoldable pub fold_fields : c.Fr → List Bytes → c.Fr
  fold_fields acc [] = acc
  fold_fields acc (fe ∷ fes) = fold_fields (poseidon2 acc (fr_from_be_bytes fe)) fes

  unfoldable pub state_root_hash : StateRoot → Bytes
  state_root_hash s = fr_to_be_bytes (fold_fields (c.fr_from 0) (state_field_elements s))

  unfoldable pub next_state : StateRoot → TransitionType → StateRoot
  next_state prev ttype = record prev {
    state_epoch = (prev.state_epoch + 1) % u64_mod;
    prev_state_root = state_root_hash prev;
    transition_type = transition_type_u8 ttype;
  }

  -- The loop of `count_valid_multisig` and of the approvals of `apply_finalize_claim`: the
  -- signers seen so far and their number.
  unfoldable pub count_signers : Bytes → List Bytes → List MultisigSig → List Bytes → ℕ → ℕ
  count_signers message authorized [] seen count = count
  count_signers message authorized (s ∷ sigs) seen count =
      let counted = count_signers message authorized sigs (s.signer_pubkey ∷ seen) (count + 1) in
      let skipped = count_signers message authorized sigs seen count in
      if not (contains authorized s.signer_pubkey) || contains seen s.signer_pubkey
      then skipped
      else if verify_ecdsa message s.signer_pubkey s.signature
      then counted
      else skipped

-- The `collateral_ratio_ppm` and `emergency_tier` of a state, from a reserve, a supply and a price.
unfoldable pub tier_fields : ℕ → ℕ → ℕ → Eval (ℕ × ℕ)
tier_fields reserve supply price = elim (collateral_ratio_ppm reserve supply price) [
  | value none ↦ value (0, emergency_tier_u8 (tier_of_ratio none))
  | value (some cr) ↦ value (cr, emergency_tier_u8 (tier_of_ratio (some cr)))
  | panicked ↦ panicked
]

-- `set_state_tier`.
unfoldable pub set_state_tier : StateRoot → ℕ → Eval StateRoot
set_state_tier s price_e8 = elim (tier_fields s.reserve_btc_sats s.sat_usd_supply_atoms price_e8) [
  | value (cr, t) ↦ value (record s { collateral_ratio_ppm = cr; emergency_tier = t })
  | panicked ↦ panicked
]

-- `verified`: the executor's state is the claimed one.
unfoldable pub verified {ℓ} :
    {E : Type ℓ} → E → Result E StateRoot → StateRoot → Result E (Unit {0})
verified mismatch (ok e) new = ite (StateRoot-discrete e new) (ok tt) (err mismatch)
verified mismatch (err e) new = err e
verified mismatch panic new = panic
