-- ===== src/Tests/Registering.antt =====
-- Registrations at concrete states.
use sats_usd.Base.{
  ℕ, zero, suc, ◌<◌, ◌≡◌, ◌≢◌, refl, List, [], ◌∷◌, Bytes, none, Result, ok, err, panic, value,
  panicked, replicate, All, arith,
}
use sats_usd.Crypto.{Crypto}
use sats_usd.Derive.{issuer_position_hash}
use sats_usd.Smt.{
  SparseMerkleTree, prove, root, new_tree, insert, lookup_leaf, fold_to_root, verify_exclusion,
}
use sats_usd.Smt.Keys.{IsKey, IsTree}
use sats_usd.Transition.{next_state}
use sats_usd.Types.{
  StateRoot, IssuerPosition, IssuerStatus, OperatorPosition, OperatorStatus, TransitionType,
}
use sats_usd.Registry.{post_state_mismatch, apply_issuer_register, apply_operator_register}
use sats_usd.Transition.Signers.{Distinct}
use sats_usd.Registry.Members.{IsFresh, apply_issuer_register_once, apply_issuer_register-insert}
use sats_usd.Tests.Toy.{toy, toy_field, toy_free}

abbrev pub key : ℕ → Bytes
key n = replicate 32 n

abbrev pub siblings : List Bytes
siblings = replicate 256 []

abbrev pub root_over : Bytes → Bytes → Bytes
root_over k leaf = elim (fold_to_root ⦃c = toy⦄ k leaf siblings) [ value r ↦ r | panicked ↦ [] ]

abbrev pub genesis : StateRoot
genesis = record {
  protocol_version = 1;
  state_epoch = 7;
  prev_state_root = key 9;
  transition_type = 1;
  satusd_asset_family_id = key 8;
  sat_usd_supply_atoms = 1000;
  reserve_btc_sats = 500000;
  reserved_pending_claim_sats = 900;
  collateral_ratio_ppm = 0;
  emergency_tier = 0;
  oracle_set_hash = [];
  oracle_set_epoch = 1;
  latest_oracle_epoch_seen = 1;
  latest_oracle_price_e8 = 6000000000000;
  reserve_committee_hash = [];
  issuer_positions_root = [];
  operator_registry_root = [];
  lock_record_root = [];
  lock_consumed_root = [];
  lock_refund_root = [];
  redemption_nullifier_root = [];
  pending_claim_root = [];
  live_da_root = [];
  archival_da_root = [];
  l1_anchor_hash = [];
  l1_anchor_height = 100;
  l1_anchor_mtp = 0;
  l1_anchor_chain_time = 0;
}

abbrev pub state_of {κ} : {E : Type κ} → Result E StateRoot → StateRoot
state_of (ok s) = s
state_of (err e) = genesis
state_of panic = genesis

abbrev alice : IssuerPosition
alice = record {
  issuer_id = key 5;
  status = IssuerStatus.active;
  multisig_pubkeys = key 1 ∷ key 2 ∷ [];
  multisig_threshold = 2;
  reserve_deposits_sats = 0;
  minted_satusd_atoms = 0;
  pending_mint_atoms = 0;
  collateral_ratio_ppm = 0;
  last_deposit_txid = none;
  freeze_reason = none;
  registered_at_height = 90;
  pending_mint_commitment = none;
}

abbrev no_issuers : StateRoot
no_issuers = record genesis { issuer_positions_root = root_over (key 5) [] }

abbrev with_alice : StateRoot
with_alice = state_of (apply_issuer_register ⦃c = toy⦄ no_issuers alice siblings)

alice_registers : apply_issuer_register ⦃c = toy⦄ no_issuers alice siblings ≡ ok with_alice
unfolding apply_issuer_register fold_to_root sats_usd.Registry.fresh_issuer
    sats_usd.Types.issuer_status_u8 sats_usd.Registry.distinct_keys verify_exclusion
    sats_usd.Smt.folds_to sats_usd.Smt.fold_levels sats_usd.Crypto.fr_to_be_bytes sats_usd.Smt.bit
    sats_usd.Crypto.poseidon2 sats_usd.Crypto.fr_from_be_bytes sats_usd.Smt.root_after_update
alice_registers = refl

-- A second registration under alice's id, with one key and a proof of its own.
abbrev mallory : IssuerPosition
mallory = record alice { multisig_pubkeys = key 4 ∷ []; multisig_threshold = 1 }

apply_issuer_register_once_example :
    apply_issuer_register ⦃c = toy⦄ with_alice mallory (replicate 256 (key 1)) ≢ ok genesis
apply_issuer_register_once_example =
    apply_issuer_register_once ⦃c = toy⦄ toy_field toy_free no_issuers with_alice with_alice genesis
      alice mallory siblings (replicate 256 (key 1)) alice_registers refl refl

abbrev olivia : OperatorPosition
olivia = record {
  operator_id = key 6;
  status = OperatorStatus.active;
  operator_pubkey = key 6;
  bond_sats = 5000;
  max_claim_sats = 2500;
  outstanding_claim_sats = 0;
  slashed_sats = 0;
  registered_at_height = 90;
}

abbrev no_operators : StateRoot
no_operators = record genesis { operator_registry_root = root_over (key 6) [] }

abbrev with_olivia : StateRoot
with_olivia = state_of (apply_operator_register ⦃c = toy⦄ no_operators olivia siblings)

olivia_registers : apply_operator_register ⦃c = toy⦄ no_operators olivia siblings ≡ ok with_olivia
unfolding apply_operator_register fold_to_root sats_usd.Types.operator_status_u8 verify_exclusion
    sats_usd.Smt.folds_to sats_usd.Smt.fold_levels sats_usd.Crypto.fr_to_be_bytes sats_usd.Smt.bit
    sats_usd.Crypto.poseidon2 sats_usd.Crypto.fr_from_be_bytes sats_usd.Smt.root_after_update
olivia_registers = refl

-- A tree that holds one other issuer.
abbrev one_issuer : SparseMerkleTree ⦃c = toy⦄
one_issuer = insert ⦃c = toy⦄ (key 3) (key 7) (new_tree ⦃c = toy⦄)

abbrev beside : StateRoot
beside = record genesis { issuer_positions_root = root ⦃c = toy⦄ one_issuer }

pub key-IsKey : (n : ℕ) → n < 256 → IsKey (key n)
key-IsKey n h = (refl, go 32)
  where
    go : (m : ℕ) → All (λ b. b < 256) (replicate m n)
    go zero = tt
    go (suc m) = (h, go m)

pub one_issuer-IsTree : IsTree ⦃c = toy⦄ one_issuer.leaves
unfolding insert sats_usd.Smt.insert_leaf new_tree
one_issuer-IsTree = (key-IsKey 3 (omega arith), tt)

absent : lookup_leaf ⦃c = toy⦄ (key 5) one_issuer.leaves ≡ none
unfolding insert lookup_leaf sats_usd.Smt.insert_leaf new_tree
absent = refl

alice-IsFresh : IsFresh alice
alice-IsFresh = (refl, refl, refl, refl, refl, refl, refl, refl)

alice-Distinct : Distinct alice.multisig_pubkeys
alice-Distinct = (refl, (refl, tt))

apply_issuer_register-insert_example :
    apply_issuer_register ⦃c = toy⦄ beside alice (prove ⦃c = toy⦄ one_issuer (key 5))
    ≡ ok (record (next_state ⦃c = toy⦄ beside TransitionType.issuer_register) {
      issuer_positions_root =
          root ⦃c = toy⦄
            (insert ⦃c = toy⦄ (key 5) (issuer_position_hash ⦃c = toy⦄ alice) one_issuer);
    })
apply_issuer_register-insert_example =
    apply_issuer_register-insert ⦃c = toy⦄ toy_field beside one_issuer alice one_issuer-IsTree
      (key-IsKey 5 (omega arith)) refl absent alice-IsFresh (omega arith) (omega arith)
      alice-Distinct
