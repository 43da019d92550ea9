-- ===== src/Registry/Members.antt =====
-- ISSUER_REGISTER and OPERATOR_REGISTER: what an accepted registration is.
use sats_usd.Base.{
  ◌*◌, ◌≤◌, ◌<◌, ◌≡◌, ◌≢◌, refl, List, [], Bytes, ok, arith, true, none, value, length,
}
use sats_usd.Crypto.{Crypto}
use sats_usd.Derive.{issuer_position_hash}
use sats_usd.Smt.{
  SparseMerkleTree, lookup_leaf, insert, root, prove, verify_exclusion, root_after_update,
}
use sats_usd.Smt.Keys.{IsKey, IsTree}
use sats_usd.Smt.Sound.{CollisionFree, inclusion_excludes, updated_included}
use sats_usd.Smt.Complete.{FieldBytes, verify_exclusion-prove, root_after_update-insert}
use sats_usd.Transition.{next_state}
use sats_usd.Transition.Signers.{Distinct}
use sats_usd.Types.{
  IssuerPosition, IssuerStatus, issuer_status_u8, OperatorPosition, StateRoot, TransitionType,
}
use sats_usd.Registry.{apply_issuer_register, apply_operator_register, fresh_issuer}
use sats_usd.Registry.Keys.{distinct_keys-Distinct, Distinct-distinct_keys}

-- `fresh` of `apply_issuer_register`, field by field.
abbrev pub IsFresh : IssuerPosition → Type 0
IsFresh p =
    (p.status ≡ IssuerStatus.active)
    × (p.minted_satusd_atoms ≡ 0)
    × (p.pending_mint_atoms ≡ 0)
    × (p.reserve_deposits_sats ≡ 0)
    × (p.collateral_ratio_ppm ≡ 0)
    × (p.pending_mint_commitment ≡ none)
    × (p.last_deposit_txid ≡ none)
    × (p.freeze_reason ≡ none)

IsFresh-fresh_issuer : (p : IssuerPosition) → IsFresh p → fresh_issuer p ≡ true
unfolding fresh_issuer issuer_status_u8
IsFresh-fresh_issuer p (active, minted, pending, deposits, ratio, commitment, txid, reason) =
    rw (active, minted, pending, deposits, ratio, commitment, txid, reason) refl

module _ ⦃c : Crypto⦄ (prev new : StateRoot) where
  -- An accepted issuer has no minted or pending atoms, no pending commitment, distinct keys and a
  -- threshold from one to their number; supply, reserve and reservations stay.
  pub apply_issuer_register_checked :
      (issuer : IssuerPosition) (proof : List Bytes)
      → apply_issuer_register prev issuer proof ≡ ok new
      → (issuer.minted_satusd_atoms ≡ 0)
        × (issuer.pending_mint_atoms ≡ 0)
        × (issuer.pending_mint_commitment ≡ none)
        × (1 ≤ issuer.multisig_threshold)
        × (issuer.multisig_threshold ≤ length issuer.multisig_pubkeys)
        × Distinct issuer.multisig_pubkeys
        × (new.sat_usd_supply_atoms ≡ prev.sat_usd_supply_atoms)
        × (new.reserve_btc_sats ≡ prev.reserve_btc_sats)
        × (new.reserved_pending_claim_sats ≡ prev.reserved_pending_claim_sats)
  unfolding apply_issuer_register fresh_issuer next_state
  apply_issuer_register_checked issuer proof h = (
    ground arith,
    ground arith,
    ground arith,
    ground arith,
    ground arith,
    distinct_keys-Distinct issuer.multisig_pubkeys [] (ground arith),
    ground arith,
    ground arith,
    ground arith,
  )

  -- An accepted operator has a positive largest claim, a bond of twice that or more, nothing
  -- outstanding and nothing slashed; issuers, supply and reserve stay.
  pub apply_operator_register_bonded :
      (op : OperatorPosition) (proof : List Bytes)
      → apply_operator_register prev op proof ≡ ok new
      → (0 < op.max_claim_sats)
        × (2 * op.max_claim_sats ≤ op.bond_sats)
        × (op.outstanding_claim_sats ≡ 0)
        × (op.slashed_sats ≡ 0)
        × (new.issuer_positions_root ≡ prev.issuer_positions_root)
        × (new.sat_usd_supply_atoms ≡ prev.sat_usd_supply_atoms)
        × (new.reserve_btc_sats ≡ prev.reserve_btc_sats)
  unfolding apply_operator_register next_state
  apply_operator_register_bonded op proof h = (
    ground arith,
    ground arith,
    ground arith,
    ground arith,
    ground arith,
    ground arith,
    ground arith,
  )

-- Where field elements are read back from their bytes, with the proof of a tree of 32-byte keys
-- that lacks the issuer and whose root the state holds, an issuer that is fresh, field by field,
-- with pairwise distinct keys and a threshold from one to their number is accepted, and the new
-- root is that of the tree with its leaf.
pub apply_issuer_register-insert :
    ⦃c : Crypto⦄ (laws : FieldBytes c) (prev : StateRoot) (t : SparseMerkleTree)
    (issuer : IssuerPosition)
    → IsTree t.leaves
    → IsKey issuer.issuer_id
    → prev.issuer_positions_root ≡ root t
    → lookup_leaf issuer.issuer_id t.leaves ≡ none
    → IsFresh issuer
    → 1 ≤ issuer.multisig_threshold
    → issuer.multisig_threshold ≤ length issuer.multisig_pubkeys
    → Distinct issuer.multisig_pubkeys
    → apply_issuer_register prev issuer (prove t issuer.issuer_id)
      ≡ ok (record (next_state prev TransitionType.issuer_register) {
        issuer_positions_root = root (insert issuer.issuer_id (issuer_position_hash issuer) t);
      })
unfolding apply_issuer_register
apply_issuer_register-insert laws prev t issuer valid key at_root absent fresh lo hi distinct =
    ground (
      arith,
      IsFresh-fresh_issuer issuer fresh,
      Distinct-distinct_keys issuer.multisig_pubkeys distinct,
      verify_exclusion-prove laws t issuer.issuer_id valid key absent,
      root_after_update-insert laws t issuer.issuer_id valid key (issuer_position_hash issuer),
    )

module _ ⦃c : Crypto⦄ where
  issuer_written :
      (prev new : StateRoot) (issuer : IssuerPosition) (proof : List Bytes)
      → apply_issuer_register prev issuer proof ≡ ok new
      → (verify_exclusion prev.issuer_positions_root issuer.issuer_id proof ≡ true)
        × (root_after_update issuer.issuer_id (issuer_position_hash issuer) proof
            ≡ value new.issuer_positions_root)
  unfolding apply_issuer_register next_state
  issuer_written prev new issuer proof h = (ground arith, ground arith)

  -- Where Poseidon has no collision and field elements are read back from their bytes, an issuer's
  -- id is registered once: a second registration under it is refused from every state that has the
  -- tree the first one left, with whatever position and proof.
  pub apply_issuer_register_once :
      FieldBytes c
      → CollisionFree c
      → (prev new later last : StateRoot) (issuer again : IssuerPosition) (p q : List Bytes)
      → apply_issuer_register prev issuer p ≡ ok new
      → later.issuer_positions_root ≡ new.issuer_positions_root
      → again.issuer_id ≡ issuer.issuer_id
      → apply_issuer_register later again q ≢ ok last
  apply_issuer_register_once laws free prev new later last issuer again p q first same id second =
      let (before, written) = issuer_written prev new issuer p first in
      let (absent, _) = issuer_written later last again q second in
      let present =
        updated_included issuer.issuer_id (issuer_position_hash issuer) prev.issuer_positions_root
          new.issuer_positions_root p before written in
      let excluded =
        inclusion_excludes laws free new.issuer_positions_root issuer.issuer_id
          (issuer_position_hash issuer) p q present in
      cc
