-- ===== src/Mint.antt =====
-- crates/satusd-state/src/mint.rs
pub mod Backing
pub mod Commit
pub mod Finalize
use sats_usd.Base.{
  ℕ, ◌+◌, List, [], ◌∷◌, Bytes, Bool, true, false, Option, none, some, Eval, value, panicked,
  Result, ok, err, panic, ◌>>=◌, ◌>>◌, ensure, ok_or, run, leb, ltb, ◌==◌, bytes_eq, checked_add,
  checked_sub, if◌then◌else◌,
}
use sats_usd.Crypto.{Crypto}
use sats_usd.Derive.{
  mint_commitment, mint_request_sighash, issuer_position_hash, reserve_committee_hash,
}
use sats_usd.Smt.{verify_inclusion, root_after_update}
use sats_usd.Spv.{DepositSpvError, verify_deposit_confirmation}
use sats_usd.Tier.{collateral_ratio_ppm}
use sats_usd.Transition.{MultisigSig, next_state, count_signers, set_state_tier, verified}
use sats_usd.Types.{
  IssuerPosition, issuer_status_u8, IssuerStatus, StateRoot, TransitionType, BtcDepositConfirmation,
}

abbrev pub min_mint_cr_ppm : ℕ
min_mint_cr_ppm = 2_000_000

abbrev pub tier_healthy_threshold_ppm : ℕ
tier_healthy_threshold_ppm = 1_500_000

abbrev pub deposit_min_confirmations : ℕ
deposit_min_confirmations = 6

pub data MintRejectReason : Type 0 where
  post_state_mismatch overflow issuer_mismatch issuer_not_in_state : MintRejectReason
  issuer_not_active deposit_not_confirmed deposit_not_to_reserve : MintRejectReason
  deposit_spv_invalid deposit_amount_mismatch reserve_committee_mismatch : MintRejectReason
  multisig_threshold_not_met pending_mint_exists zero_mint_amount : MintRejectReason
  insufficient_collateral_at_commit : ℕ → MintRejectReason
  no_pending_mint commit_mismatch mint_anchor_not_confirmed mint_proof_invalid : MintRejectReason
  insufficient_collateral_at_finalize tier_not_healthy : ℕ → MintRejectReason

pub record MintCommitWitness : Type 0 where
  pub issuer_id : Bytes
  pub requested_mint_atoms : ℕ
  pub deposit_txid : Bytes
  pub deposit_sats : ℕ
  pub asset_metadata_commitment : Bytes
  pub signatures : List MultisigSig
  pub oracle_price_e8 : ℕ
  pub deposit_confirmation : BtcDepositConfirmation
  pub reserve_committee_pubkeys : List Bytes
  pub reserve_committee_threshold : ℕ

pub record MintFinalizeWitness : Type 0 where
  pub issuer_id : Bytes
  pub requested_mint_atoms : ℕ
  pub deposit_txid : Bytes
  pub asset_metadata_commitment : Bytes
  pub mint_anchor_confirmations : ℕ
  pub mint_proof_ok : Bool
  pub oracle_price_e8 : ℕ

-- The `map_err` of the deposit's SPV errors.
unfoldable pub deposit_error : DepositSpvError → MintRejectReason
deposit_error DepositSpvError.confirmation_depth_insufficient = deposit_not_confirmed
deposit_error DepositSpvError.deposit_not_to_reserve = deposit_not_to_reserve
deposit_error DepositSpvError.deposit_amount_mismatch = deposit_amount_mismatch
deposit_error _ = deposit_spv_invalid

abbrev pub map_deposit_error :
    Result DepositSpvError (Unit {0}) → Result MintRejectReason (Unit {0})
map_deposit_error (ok u) = ok u
map_deposit_error (err e) = err (deposit_error e)
map_deposit_error panic = panic

-- `.expect("post_supply > 0")`.
abbrev pub expect_ratio : Eval (Option ℕ) → Eval ℕ
expect_ratio (value (some cr)) = value cr
expect_ratio (value none) = panicked
expect_ratio panicked = panicked

-- The `match` on `pending_mint_commitment` at finalize.
abbrev pub match_commitment : Option Bytes → Bytes → Result MintRejectReason (Unit {0})
match_commitment none commitment = err no_pending_mint
match_commitment (some pending) commitment = ensure (bytes_eq pending commitment) commit_mismatch

-- `Option::is_none`.
abbrev pub is_none {ℓ} : {A : Type ℓ} → Option A → Bool
is_none none = true
is_none (some _) = false

-- `status == IssuerStatus::Active`.
abbrev pub is_active : IssuerPosition → Bool
is_active p = issuer_status_u8 p.status == 0

module _ ⦃c : Crypto⦄ where
  unfoldable pub count_valid_multisig : Bytes → IssuerPosition → List MultisigSig → ℕ
  count_valid_multisig sighash issuer sigs = count_signers sighash issuer.multisig_pubkeys sigs [] 0

  unfoldable pub issuer_in_state :
      Bytes → IssuerPosition → List Bytes → Result MintRejectReason (Unit {0})
  issuer_in_state root issuer proof =
      ensure (verify_inclusion root issuer.issuer_id (issuer_position_hash issuer) proof)
        issuer_not_in_state

  unfoldable pub issuer_after_commit :
      IssuerPosition → MintCommitWitness → Result MintRejectReason IssuerPosition
  issuer_after_commit prev_issuer w = do
    let commitment =
        mint_commitment w.requested_mint_atoms w.asset_metadata_commitment w.deposit_txid
    deposits ← ok_or (checked_add prev_issuer.reserve_deposits_sats w.deposit_sats) overflow
    pending ← ok_or (checked_add prev_issuer.pending_mint_atoms w.requested_mint_atoms) overflow
    ok (record prev_issuer {
      reserve_deposits_sats = deposits;
      pending_mint_atoms = pending;
      last_deposit_txid = some w.deposit_txid;
      pending_mint_commitment = some commitment;
    })

  unfoldable pub apply_mint_commit :
      StateRoot
      → IssuerPosition
      → List Bytes
      → MintCommitWitness
      → Result MintRejectReason StateRoot
  apply_mint_commit prev_state prev_issuer issuer_proof w = do
    ensure (bytes_eq prev_issuer.issuer_id w.issuer_id) issuer_mismatch
    issuer_in_state prev_state.issuer_positions_root prev_issuer issuer_proof
    ensure (is_active prev_issuer) issuer_not_active
    ensure
        (bytes_eq (reserve_committee_hash w.reserve_committee_threshold w.reserve_committee_pubkeys)
          prev_state.reserve_committee_hash)
        reserve_committee_mismatch
    map_deposit_error (
        verify_deposit_confirmation w.deposit_confirmation w.deposit_txid w.deposit_sats
          w.reserve_committee_pubkeys w.reserve_committee_threshold deposit_min_confirmations)
    let sighash =
        mint_request_sighash w.issuer_id w.requested_mint_atoms w.deposit_sats w.deposit_txid
          w.asset_metadata_commitment
    ensure
        (leb prev_issuer.multisig_threshold (count_valid_multisig sighash prev_issuer w.signatures))
        multisig_threshold_not_met
    ensure (is_none prev_issuer.pending_mint_commitment) pending_mint_exists
    ensure (ltb 0 w.requested_mint_atoms) zero_mint_amount
    reserve_total ← ok_or (checked_add prev_state.reserve_btc_sats w.deposit_sats) overflow
    post_supply ←
        ok_or (checked_add prev_state.sat_usd_supply_atoms w.requested_mint_atoms) overflow
    cr ← run (expect_ratio (collateral_ratio_ppm reserve_total post_supply w.oracle_price_e8))
    ensure (leb min_mint_cr_ppm cr) (insufficient_collateral_at_commit cr)
    exp ← issuer_after_commit prev_issuer w
    let advanced = next_state prev_state TransitionType.mint_commit
    tiered ← run (
        set_state_tier
          (record advanced {
            reserve_btc_sats = reserve_total;
            latest_oracle_price_e8 = w.oracle_price_e8;
          })
          w.oracle_price_e8)
    new_root ← run (root_after_update w.issuer_id (issuer_position_hash exp) issuer_proof)
    ok (record tiered { issuer_positions_root = new_root })

  unfoldable pub verify_mint_commit :
      StateRoot
      → StateRoot
      → IssuerPosition
      → List Bytes
      → MintCommitWitness
      → Result MintRejectReason (Unit {0})
  verify_mint_commit prev_state new_state prev_issuer issuer_proof w =
      verified post_state_mismatch (apply_mint_commit prev_state prev_issuer issuer_proof w)
        new_state

-- FINALIZE.
module _ where
  unfoldable pub issuer_after_finalize : IssuerPosition → ℕ → Result MintRejectReason IssuerPosition
  issuer_after_finalize prev_issuer requested_mint_atoms = do
    minted ← ok_or (checked_add prev_issuer.minted_satusd_atoms requested_mint_atoms) overflow
    pending ← ok_or (checked_sub prev_issuer.pending_mint_atoms requested_mint_atoms) overflow
    ok (record prev_issuer {
      minted_satusd_atoms = minted;
      pending_mint_atoms = pending;
      pending_mint_commitment = none;
    })

module _ ⦃c : Crypto⦄ where
  unfoldable pub apply_mint_finalize :
      StateRoot
      → IssuerPosition
      → List Bytes
      → MintFinalizeWitness
      → Result MintRejectReason StateRoot
  apply_mint_finalize prev_state prev_issuer issuer_proof w = do
    ensure (bytes_eq prev_issuer.issuer_id w.issuer_id) issuer_mismatch
    issuer_in_state prev_state.issuer_positions_root prev_issuer issuer_proof
    ensure (is_active prev_issuer) issuer_not_active
    match_commitment prev_issuer.pending_mint_commitment
        (mint_commitment w.requested_mint_atoms w.asset_metadata_commitment w.deposit_txid)
    ensure (leb deposit_min_confirmations w.mint_anchor_confirmations) mint_anchor_not_confirmed
    ensure w.mint_proof_ok mint_proof_invalid
    post_supply ←
        ok_or (checked_add prev_state.sat_usd_supply_atoms w.requested_mint_atoms) overflow
    cr ← run (
        expect_ratio
          (collateral_ratio_ppm prev_state.reserve_btc_sats post_supply w.oracle_price_e8))
    ensure (leb min_mint_cr_ppm cr) (insufficient_collateral_at_finalize cr)
    ensure (leb tier_healthy_threshold_ppm cr) (tier_not_healthy cr)
    exp ← issuer_after_finalize prev_issuer w.requested_mint_atoms
    let advanced = next_state prev_state TransitionType.mint_finalize
    tiered ← run (
        set_state_tier
          (record advanced {
            sat_usd_supply_atoms = post_supply;
            latest_oracle_price_e8 = w.oracle_price_e8;
          })
          w.oracle_price_e8)
    new_root ← run (root_after_update w.issuer_id (issuer_position_hash exp) issuer_proof)
    ok (record tiered { issuer_positions_root = new_root })

  unfoldable pub verify_mint_finalize :
      StateRoot
      → StateRoot
      → IssuerPosition
      → List Bytes
      → MintFinalizeWitness
      → Result MintRejectReason (Unit {0})
  verify_mint_finalize prev_state new_state prev_issuer issuer_proof w =
      verified post_state_mismatch (apply_mint_finalize prev_state prev_issuer issuer_proof w)
        new_state
