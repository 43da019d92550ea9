-- ===== src/TaProof/Lineage/Chain.antt =====
-- What an accepted lineage is.
use sats_usd.Base.{
  ◌≡◌, ◌↔◌, refl, bytes_eq_refl, true, ==_iff, List, [], ◌∷◌, some, ok, bind_ok, came, bytes_eq→eq,
  arith, bytes_eq,
}
use mathlib.Core.Path.{subst}
use sats_usd.Crypto.{Crypto}
use sats_usd.TaProof.Tlv.{Proof}
use sats_usd.TaProof.Anchor.{Bitcoin, AnchorInfo}
use sats_usd.TaProof.Commitment.{verify_asset_inclusion}
use sats_usd.TaProof.Lineage.{prev_outpoint, follows, lineage_from, verify_lineage}

-- The input of a proof is the output that the proof before it is anchored in.
abbrev pub Spends : Proof → AnchorInfo → Type 0
Spends p prev = prev_outpoint p ≡ ok (prev.txid, prev.output_index)

module _ ⦃c : Crypto⦄ ⦃bitcoin : Bitcoin⦄ where
  -- A chain of proofs behind an anchor: each is included in its own anchor and spends the one before.
  pub data Chain : AnchorInfo → List Proof → AnchorInfo → Type 0 where
    done : {a : AnchorInfo} → Chain a [] a
    next :
        {a b h : AnchorInfo} {p : Proof} {proofs : List Proof}
        → verify_asset_inclusion p ≡ ok b
        → Spends p a
        → Chain b proofs h
        → Chain a (p ∷ proofs) h

  -- A genesis and the chain behind it.
  pub data Lineage : List Proof → AnchorInfo → Type 0 where
    lineage :
        {a h : AnchorInfo} {p : Proof} {proofs : List Proof}
        → verify_asset_inclusion p ≡ ok a
        → Chain a proofs h
        → Lineage (p ∷ proofs) h

  follows-Spends : (prev : AnchorInfo) (p : Proof) → (follows (some prev) p ≡ ok tt) ↔ Spends p prev
  unfolding follows
  follows-Spends prev p = (
    λ e. elim (bind_ok (prev_outpoint p) _ e) [
      | came (txid, vout) o e1 ↦
          let same : bytes_eq txid prev.txid ≡ true = ground arith in
          let vout_same : vout ≡ prev.output_index = ground arith in
          cc (o, bytes_eq→eq txid prev.txid same, vout_same)
    ],
    λ o. rw (o, bytes_eq_refl prev.txid, (==_iff prev.output_index prev.output_index).1 refl) refl,
  )

  lineage_from-Chain :
      (prev head : AnchorInfo) (proofs : List Proof)
      → lineage_from (some prev) proofs ≡ ok head
      → Chain prev proofs head
  unfolding lineage_from
  lineage_from-Chain prev head [] e = subst (λ h. Chain prev [] h) (ground arith) done
  lineage_from-Chain prev head (p ∷ proofs) e = elim (bind_ok (verify_asset_inclusion p) _ e) [
    | came b v e1 ↦ elim (bind_ok (follows (some prev) p) _ e1) [
      | came tt f e2 ↦ next v ((follows-Spends prev p).0 f) (lineage_from-Chain b head proofs e2)
    ]
  ]

  Chain-lineage_from :
      (prev head : AnchorInfo) (proofs : List Proof)
      → Chain prev proofs head
      → lineage_from (some prev) proofs ≡ ok head
  unfolding lineage_from
  Chain-lineage_from prev head [] done = refl
  Chain-lineage_from prev head (p ∷ proofs) (next v s h) =
      rw (v, (follows-Spends prev p).1 s, Chain-lineage_from _ head proofs h) refl

  Lineage-verify_lineage :
      (proofs : List Proof) (head : AnchorInfo)
      → Lineage proofs head
      → verify_lineage proofs ≡ ok head
  unfolding verify_lineage lineage_from follows
  Lineage-verify_lineage [] head h = elim h [ ]
  Lineage-verify_lineage (p ∷ proofs) head (lineage v h) =
      rw (v, Chain-lineage_from _ head proofs h) refl

  -- A lineage is accepted with a head exactly when it is a proof included in its anchor, followed
  -- by proofs that are each included in their anchor and spend the anchored output of the one
  -- before, the last anchor being the head.
  pub verify_lineage-Lineage :
      (proofs : List Proof) (head : AnchorInfo)
      → (verify_lineage proofs ≡ ok head) ↔ Lineage proofs head
  unfolding verify_lineage lineage_from follows
  verify_lineage-Lineage [] head = (λ e. absurd (cc), Lineage-verify_lineage [] head)
  verify_lineage-Lineage (p ∷ proofs) head = (
    λ e. elim (bind_ok (verify_asset_inclusion p) _ e) [
      | came a v e1 ↦ lineage v (lineage_from-Chain a head proofs e1)
    ],
    Lineage-verify_lineage (p ∷ proofs) head,
  )
