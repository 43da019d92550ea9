-- ===== src/Tests/Custody.antt =====
-- The reserve backends after some calls.
use sats_usd.Base.{
  ◌⊎◌, ℕ, ◌+◌, ◌%◌, ◌<◌, ◌≤◌, ◌≡◌, ◌≢◌, refl, List, [], ◌∷◌, Bytes, ok, err, some, none, Result,
  true, false, u64_mod, arith, length, Bool,
}
use sats_usd.Base.Dict.{lookup, total, Unique}
use sats_usd.Crypto.{Crypto}
use sats_usd.Types.{ReserveClaim}
use sats_usd.Transition.Signers.{HasQuorum}
use sats_usd.Reserve.{
  unknown_claim, already_finalized, ReserveSpend, Committee, Approval, count_approvals,
}
use sats_usd.Reserve.Mock.{
  MockReserve, new_mock, mock_credit, mock_submit_claim, mock_finalize_claim,
}
use sats_usd.Reserve.Mock.Invariant.{
  MockReachable, MockStep, MockAccounts, mock_reachable-MockAccounts,
}
use sats_usd.Reserve.Multisig.{
  MultisigReserve, new_multisig, ms_submit_claim, add_approval, ms_finalize_claim, rotate_committee,
  approval_count,
}
use sats_usd.Reserve.Multisig.Payout.{ms_finalize_claim-once}
use sats_usd.Reserve.Multisig.Approvals.{
  ms_finalize_claim-HasQuorum, rotate_committee-ms_finalize_claim,
}
use sats_usd.Reserve.Multisig.Invariant.{MsReachable, MsStep, MsAccounts, ms_reachable-MsAccounts}
use sats_usd.Tests.Registering.{key}
use sats_usd.Tests.Toy.{toy}

abbrev claim : ReserveClaim
claim = record {
  claim_id = key 6;
  transition_type = 17;
  operator_id = key 7;
  prev_state_root = [];
  new_state_root = [];
  redemption_batch_root = [];
  oracle_batch_root = [];
  lock_batch_root = [];
  payout_batch_root = [];
  confirmation_batch_root = [];
  finalize_batch_root = [];
  burn_proof_batch_root = [];
  lineage_proof_batch_root = [];
  live_da_root = [];
  archival_da_root = [];
  l1_anchor = record {
    l1_anchor_height = 100;
    l1_anchor_hash = [];
    l1_anchor_mtp = 0;
    l1_anchor_chain_time = 0;
    recent_header_chain = [];
    oracle_epoch = 1;
    selected_oracle_price_e8 = 1;
    max_epoch_lag_sec = 60;
    oracle_future_tolerance = 60;
  };
  reserve_shard_id = 0;
  reimbursement_sats = 400;
  proof_commitment = [];
  claim_expiry_height = 150;
  operator_signature = [];
}

abbrev funded : MockReserve
funded = mock_submit_claim claim (mock_credit 200 (new_mock 800))

funded_reachable : MockReachable 800 funded
unfolding new_mock mock_credit lookup
funded_reachable =
    MockReachable.next
      (MockReachable.next (MockReachable.start 800) (MockStep.credit 200 (new_mock 800)))
      (MockStep.submit claim (mock_credit 200 (new_mock 800)) refl)

mock_reachable-MockAccounts_example : MockAccounts funded
mock_reachable-MockAccounts_example = mock_reachable-MockAccounts 800 funded funded_reachable

abbrev spend : ReserveSpend
spend = record { claim_id = key 6; operator_id = key 7; amount_sats = 400 }

abbrev spent : MockReserve
spent = (mock_finalize_claim (key 6) funded).1

mock_pays : mock_finalize_claim (key 6) funded ≡ (ok spend, spent)
unfolding mock_finalize_claim lookup mock_submit_claim sats_usd.Base.Dict.put mock_credit new_mock
mock_pays = refl

total_fits : funded.total_sats < u64_mod
unfolding mock_submit_claim mock_credit new_mock
total_fits = omega arith

abbrev committee : Committee
committee = record { threshold = 2; pubkeys = key 1 ∷ key 2 ∷ key 3 ∷ [] }

abbrev approval : ℕ → Approval
approval n = record { signer_pubkey = key n; signature = key n }

abbrev start : MultisigReserve
start = new_multisig 1000 committee

abbrev submitted : MultisigReserve
submitted = ms_submit_claim claim start

abbrev first : MultisigReserve
first = (add_approval ⦃c = toy⦄ (key 6) (approval 3) submitted).1

abbrev approved : MultisigReserve
approved = (add_approval ⦃c = toy⦄ (key 6) (approval 1) first).1

approved_reachable : MsReachable ⦃c = toy⦄ approved
unfolding new_multisig lookup
approved_reachable =
    MsReachable.next
      (MsReachable.next
        (MsReachable.next (MsReachable.start 1000 committee) (MsStep.submit claim start refl))
        (MsStep.approve (key 6) (approval 3) submitted))
      (MsStep.approve (key 6) (approval 1) first)

ms_reachable-MsAccounts_example : MsAccounts approved
ms_reachable-MsAccounts_example = ms_reachable-MsAccounts ⦃c = toy⦄ approved approved_reachable

abbrev settled : MultisigReserve
settled = (ms_finalize_claim ⦃c = toy⦄ (key 6) approved).1

ms_pays : ms_finalize_claim ⦃c = toy⦄ (key 6) approved ≡ (ok spend, settled)
unfolding ms_finalize_claim add_approval lookup ms_submit_claim sats_usd.Base.Dict.put new_multisig
    sats_usd.Crypto.verify_ecdsa sats_usd.Reserve.Multisig.approved_by approval_count
    count_approvals sats_usd.Reserve.approvers
ms_pays = refl

ms_total_fits : approved.total_sats < u64_mod
unfolding add_approval ms_submit_claim new_multisig lookup sats_usd.Base.Dict.put
    sats_usd.Crypto.verify_ecdsa sats_usd.Reserve.Multisig.approved_by
ms_total_fits = omega arith

ms_finalize_claim-once_example :
    ms_finalize_claim ⦃c = toy⦄ (key 6) settled ≡ (err already_finalized, settled)
ms_finalize_claim-once_example =
    (ms_finalize_claim-once ⦃c = toy⦄ (key 6) approved settled spend ms_total_fits ms_pays).8

ms_finalize_claim-HasQuorum_example :
    HasQuorum ⦃c = toy⦄ (key 6) approved.committee.pubkeys approved.committee.threshold
ms_finalize_claim-HasQuorum_example =
    ms_finalize_claim-HasQuorum ⦃c = toy⦄ (key 6) approved settled spend ms_pays

abbrev successors : Committee
successors = record { threshold = 1; pubkeys = key 1 ∷ key 9 ∷ [] }

rotate_committee-ms_finalize_claim_example :
    (approval_count ⦃c = toy⦄ (key 6) (rotate_committee successors approved) ≡ 0)
    × ((successors.threshold ≡ 0)
        ⊎ (ms_finalize_claim ⦃c = toy⦄ (key 6) (rotate_committee successors approved)
            ≢ (ok spend, settled)))
rotate_committee-ms_finalize_claim_example =
    rotate_committee-ms_finalize_claim ⦃c = toy⦄ successors (key 6) approved settled spend
