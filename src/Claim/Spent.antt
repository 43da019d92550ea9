-- ===== src/Claim/Spent.antt =====
-- The locks and nullifiers that a batch spends, as sets.
use sats_usd.Base.{
  ℕ, ◌≡◌, ap, sym, ◌∙◌, List, [], ◌∷◌, Bytes, true, false, ok, value, ensure, ensure-true, bind_ok,
  came, arith, All, contains,
}
use sats_usd.Crypto.{Crypto, sha256, tagged_hash}
use sats_usd.Derive.{lock_record_hash, redemption_nullifier}
use sats_usd.Redeem.{lock_not_active, lock_consumed, lock_refunded, nullifier_used, set_member}
use sats_usd.Smt.{root, verify_inclusion, verify_exclusion}
use sats_usd.Smt.Keys.{IsKey}
use sats_usd.Smt.Complete.{FieldBytes}
use sats_usd.Smt.Sound.{CollisionFree}
use sats_usd.Smt.Sets.{set_tree, root_after_update-set_tree}
use sats_usd.TaProof.Anchor.{Bitcoin}
use sats_usd.Types.{StateRoot}
use sats_usd.Claim.{BatchRedemption, redeem}
use sats_usd.Claim.Batch.{Running, lock_hash, nullifier, check_active, redeem_one, redeem_batch}
use sats_usd.Claim.Round.{round, redeem_one-Round}

-- Distinct keys.
abbrev pub Separate : List Bytes → Type 0
Separate [] = Unit
Separate (k ∷ ks) = (contains ks k ≡ false) × Separate ks

-- The keys `ks` and, in front of them, those of the redemptions.
abbrev pub with_keys : (BatchRedemption → Bytes) → List Bytes → List BatchRedemption → List Bytes
with_keys key ks [] = ks
with_keys key ks (r ∷ rs) = with_keys key (key r ∷ ks) rs

value_same : {a b : Bytes} → value a ≡ value b → a ≡ b
value_same e = ground arith

module _ ⦃c : Crypto⦄ where
  -- SHA-256 gives 32 bytes.
  abbrev pub DigestKeys : Type 0
  DigestKeys = (b : Bytes) → IsKey (c.sha2 b)

  lock_hash-IsKey : DigestKeys → (r : BatchRedemption) → IsKey (lock_hash r)
  unfolding lock_record_hash tagged_hash sha256
  lock_hash-IsKey digests r = digests _

  nullifier-IsKey : DigestKeys → (r : BatchRedemption) → IsKey (nullifier r)
  unfolding redemption_nullifier tagged_hash sha256
  nullifier-IsKey digests r = digests _

  active_unspent :
      (prev : StateRoot) (st : Running) (r : BatchRedemption) (lr_hash nf : Bytes)
      → check_active prev st r lr_hash nf ≡ ok tt
      → (verify_inclusion prev.lock_record_root lr_hash set_member r.lock_membership_proof ≡ true)
        × (verify_exclusion st.consumed_root lr_hash r.consumed_exclusion_proof ≡ true)
        × (verify_exclusion st.nullifier_root nf r.nullifier_exclusion_proof ≡ true)
  unfolding check_active
  active_unspent prev st r lr_hash nf e =
      elim (bind_ok
        (ensure (verify_inclusion prev.lock_record_root lr_hash set_member r.lock_membership_proof)
          (redeem lock_not_active))
        _ e) [
          | came _ h1 e1 ↦
              elim (bind_ok
                (ensure (verify_exclusion st.consumed_root lr_hash r.consumed_exclusion_proof)
                  (redeem lock_consumed))
                _ e1) [
                  | came _ h2 e2 ↦
                      elim (bind_ok
                        (ensure
                          (verify_exclusion prev.lock_refund_root lr_hash r.refund_exclusion_proof)
                          (redeem lock_refunded))
                        _ e2) [
                          | came _ h3 e3 ↦ (
                            ensure-true _ (redeem lock_not_active) h1,
                            ensure-true _ (redeem lock_consumed) h2,
                            ensure-true _ (redeem nullifier_used) e3,
                          )
                        ]
                ]
        ]

  module _ ⦃bitcoin : Bitcoin⦄ (laws : FieldBytes c) (free : CollisionFree c) (digests : DigestKeys)
      (prev : StateRoot) (operator_id : Bytes) (tip_height price : ℕ) where
    -- Where Poseidon has no collision, field elements are read back from their bytes and SHA-256
    -- gives 32 bytes: from roots of sets of 32-byte keys without repetition, a batch that is
    -- accepted ends with the roots of these sets and, added to them, the lock hashes and the
    -- nullifiers of its redemptions, again without repetition: no lock and no nullifier is spent
    -- twice.
    pub redeem_batch_spends :
        (st end : Running) (rs : List BatchRedemption) (ks nfs : List Bytes)
        → redeem_batch prev operator_id tip_height price st rs ≡ ok end
        → All IsKey ks
        → All IsKey nfs
        → Separate ks
        → Separate nfs
        → st.consumed_root ≡ root (set_tree set_member ks)
        → st.nullifier_root ≡ root (set_tree set_member nfs)
        → (end.consumed_root ≡ root (set_tree set_member (with_keys (λ r. lock_hash r) ks rs)))
          × (end.nullifier_root ≡ root (set_tree set_member (with_keys (λ r. nullifier r) nfs rs)))
          × Separate (with_keys (λ r. lock_hash r) ks rs)
          × Separate (with_keys (λ r. nullifier r) nfs rs)
    unfolding redeem_batch
    redeem_batch_spends st end [] ks nfs e hk hn sk sn at_ks at_nfs =
        let same : st ≡ end = ground arith in
        (
          ap (λ s. s.consumed_root) (sym same) ∙ at_ks,
          ap (λ s. s.nullifier_root) (sym same) ∙ at_nfs,
          sk,
          sn,
        )
    redeem_batch_spends st end (r ∷ rs) ks nfs e hk hn sk sn at_ks at_nfs =
        elim (bind_ok (redeem_one prev operator_id tip_height price st r) _ e) [
          | came next one rest ↦
              elim (redeem_one-Round prev operator_id tip_height price st r next one) [
                | round _ _ _ _ active _ _ _ _ _ _ _ _ _ consumed nullified _ _ ↦
                    let (_, no_lock, no_nf) =
                      active_unspent prev st r (lock_hash r) (nullifier r) active in
                    let (new_k, root_k) =
                      root_after_update-set_tree laws free set_member (lock_hash r) ks
                        r.consumed_exclusion_proof (lock_hash-IsKey digests r) hk
                        (ap (λ x. verify_exclusion x (lock_hash r) r.consumed_exclusion_proof)
                            (sym at_ks)
                          ∙ no_lock) in
                    let (new_n, root_n) =
                      root_after_update-set_tree laws free set_member (nullifier r) nfs
                        r.nullifier_exclusion_proof (nullifier-IsKey digests r) hn
                        (ap (λ x. verify_exclusion x (nullifier r) r.nullifier_exclusion_proof)
                            (sym at_nfs)
                          ∙ no_nf) in
                    redeem_batch_spends next end rs (lock_hash r ∷ ks) (nullifier r ∷ nfs) rest
                      (lock_hash-IsKey digests r, hk) (nullifier-IsKey digests r, hn) (new_k, sk)
                      (new_n, sn) (value_same (sym consumed ∙ root_k))
                      (value_same (sym nullified ∙ root_n))
              ]
        ]
