-- ===== src/Claim/Refines.antt =====
-- The locks and nullifiers of a reserve claim, as sets.
use sats_usd.Base.{◌≡◌, ◌∙◌, List, Bytes, ok, All}
use sats_usd.Crypto.{Crypto}
use sats_usd.Redeem.{set_member}
use sats_usd.Smt.{root}
use sats_usd.Smt.Keys.{IsKey}
use sats_usd.Smt.Complete.{FieldBytes}
use sats_usd.Smt.Sound.{CollisionFree}
use sats_usd.Smt.Sets.{set_tree}
use sats_usd.TaProof.Anchor.{Bitcoin}
use sats_usd.Types.{StateRoot}
use sats_usd.Claim.{ReserveClaimWitness}
use sats_usd.Claim.Batch.{lock_hash, nullifier}
use sats_usd.Claim.Submit.{start, verify_reserve_claim_finalize}
use sats_usd.Claim.Spent.{Separate, with_keys, DigestKeys, redeem_batch_spends}
use sats_usd.Claim.Settled.{settle_batch_books}
use sats_usd.Claim.Accounting.{accepted, verify_reserve_claim_finalize-Accepted}

module _ ⦃c : Crypto⦄ ⦃bitcoin : Bitcoin⦄ where
  -- The sets behind the consumed and the nullifier roots of a claim that is accepted.
  pub verify_reserve_claim_finalize_spends :
      FieldBytes c
      → CollisionFree c
      → DigestKeys
      → (prev new : StateRoot) (w : ReserveClaimWitness) (ks nfs : List Bytes) → All IsKey ks
      → All IsKey nfs
      → Separate ks
      → Separate nfs
      → prev.lock_consumed_root ≡ root (set_tree set_member ks)
      → prev.redemption_nullifier_root ≡ root (set_tree set_member nfs)
      → verify_reserve_claim_finalize prev new w ≡ ok tt
      → let spent = with_keys (λ r. lock_hash r) ks w.redemptions in
        let nullified = with_keys (λ r. nullifier r) nfs w.redemptions in
        (new.lock_consumed_root ≡ root (set_tree set_member spent))
        × (new.redemption_nullifier_root ≡ root (set_tree set_member nullified))
        × Separate spent
        × Separate nullified
  unfolding start
  verify_reserve_claim_finalize_spends laws free digests prev new w ks nfs hk hn sk sn at_ks at_nfs
        e =
      elim (verify_reserve_claim_finalize-Accepted prev new w e) [
        | accepted price st _ _ batch settled ↦
            let (consumed, nullified, apart, apart') =
              redeem_batch_spends laws free digests prev w.claim.operator_id w.btc_tip_height price
                (start prev) st w.redemptions ks nfs batch hk hn sk sn at_ks at_nfs in
            let (_, _, _, _, to_consumed, to_nullified, _, _) =
              settle_batch_books prev new w price st settled in
            (to_consumed ∙ consumed, to_nullified ∙ nullified, apart, apart')
      ]
