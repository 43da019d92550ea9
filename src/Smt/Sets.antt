-- ===== src/Smt/Sets.antt =====
-- The sets that the roots stand for: a root, an exclusion proof and the root after the update, read
-- as a set, a test and an insertion.
use mathlib.Core.Path.{subst, ap₂}
use sats_usd.Base.{
  ℕ, ◌+◌, ◌≡◌, refl, sym, ◌∙◌, ap, List, [], ◌∷◌, Bytes, true, false, value, none, some, length,
  All, arith, bytes_eq, bytes_eq→eq, contains, inl, inr, Bool-cases,
}
use sats_usd.Crypto.{Crypto, fr_to_be_bytes, fr_from_be_bytes, poseidon2}
use sats_usd.Smt.{
  Entries, SparseMerkleTree, new_tree, insert, insert_leaf, lookup_leaf, root, prove, leaf_hash,
  fold_step, verify_exclusion, root_after_update,
}
use sats_usd.Smt.Keys.{IsKey, IsTree}
use sats_usd.Smt.Path.{climb}
use sats_usd.Smt.Entries.{bit_cases, lookup-insert}
use sats_usd.Smt.Complete.{
  FieldBytes, fold_to_root-climb, fold_step_left, fold_step_right, root_after_update-insert,
  insert-IsTree, verify_exclusion-prove, verify_inclusion-prove,
}
use sats_usd.Smt.Sound.{
  CollisionFree, step_injective, to_be_injective, folds_to-climb, inclusion_excludes,
}

module _ ⦃c : Crypto⦄ where
  -- The tree of a set of keys, each with the value `member`.
  abbrev pub set_tree : Bytes → List Bytes → SparseMerkleTree
  set_tree member [] = new_tree
  set_tree member (k ∷ ks) = insert k member (set_tree member ks)

  pub set_tree-IsTree :
      (member : Bytes) (ks : List Bytes) → All IsKey ks → IsTree (set_tree member ks).leaves
  unfolding new_tree
  set_tree-IsTree member [] h = tt
  set_tree-IsTree member (k ∷ ks) (hk, h) =
      insert-IsTree (set_tree member ks) k member hk (set_tree-IsTree member ks h)

  lookup-insert_other :
      (j k : Bytes) (v : c.Fr) (es : Entries)
      → bytes_eq k j ≡ false
      → lookup_leaf j (insert_leaf k v es) ≡ lookup_leaf j es
  unfolding lookup_leaf insert_leaf
  lookup-insert_other j k v [] h = ground arith
  lookup-insert_other j k v ((i, w) ∷ es) h = elim (Bool-cases (bytes_eq i k)) [
    | inl e ↦
        let other : bytes_eq i j ≡ false = ap (λ x. bytes_eq x j) (bytes_eq→eq i k e) ∙ h in
        rw (e, h, other) refl
    | inr n ↦ rw (n, lookup-insert_other j k v es h) refl
  ]

  -- A key outside the set has no leaf.
  pub lookup-set_tree :
      (member k : Bytes) (ks : List Bytes)
      → contains ks k ≡ false
      → lookup_leaf k (set_tree member ks).leaves ≡ none
  unfolding new_tree lookup_leaf insert
  lookup-set_tree member k [] h = refl
  lookup-set_tree member k (j ∷ ks) h =
      lookup-insert_other k j (leaf_hash j member) (set_tree member ks).leaves (ground arith)
      ∙ lookup-set_tree member k ks (ground arith)

  lookup-set_tree_in :
      (member k : Bytes) (ks : List Bytes)
      → contains ks k ≡ true
      → lookup_leaf k (set_tree member ks).leaves ≡ some (leaf_hash k member)
  unfolding insert
  lookup-set_tree_in member k [] h = absurd (cc)
  lookup-set_tree_in member k (j ∷ ks) h = elim (Bool-cases (bytes_eq j k)) [
    | inl e ↦
        subst
          (λ x.
            lookup_leaf k (insert_leaf x (leaf_hash x member) (set_tree member ks).leaves)
            ≡ some (leaf_hash k member))
          (sym (bytes_eq→eq j k e))
          (lookup-insert k (leaf_hash k member) (set_tree member ks).leaves)
    | inr n ↦
        lookup-insert_other k j (leaf_hash j member) (set_tree member ks).leaves n
        ∙ lookup-set_tree_in member k ks (ground arith)
  ]

module _ ⦃c : Crypto⦄ (laws : FieldBytes c) (free : CollisionFree c) where
  -- Two equal steps have one sibling, so that they stay equal from another pair of equal children.
  step_transfer :
      (key : Bytes) (d : ℕ) (x y x' y' : c.Fr) (s t : Bytes)
      → fold_step key d x s ≡ fold_step key d y t
      → x' ≡ y'
      → (x ≡ y) × (fold_step key d x' s ≡ fold_step key d y' t)
  step_transfer key d x y x' y' s t e f = elim (bit_cases key d) [
    | inl b ↦
        let (p, q) =
          free.poseidon2_injective x (fr_from_be_bytes s) y (fr_from_be_bytes t)
            (sym (fold_step_left key d x s b) ∙ e ∙ fold_step_left key d y t b) in
        (p, fold_step_left key d x' s b ∙ ap₂ poseidon2 f q ∙ sym (fold_step_left key d y' t b))
    | inr b ↦
        let (q, p) =
          free.poseidon2_injective (fr_from_be_bytes s) x (fr_from_be_bytes t) y
            (sym (fold_step_right key d x s b) ∙ e ∙ fold_step_right key d y t b) in
        (p, fold_step_right key d x' s b ∙ ap₂ poseidon2 q f ∙ sym (fold_step_right key d y' t b))
  ]

  -- Two proofs of one root give one root after the leaf is replaced.
  climb_transfer :
      (key : Bytes) (d : ℕ) (x y z : c.Fr) (ss ts : List Bytes)
      → length ss ≡ length ts
      → climb d key x ss ≡ climb d key y ts
      → (x ≡ y) × (climb d key z ss ≡ climb d key z ts)
  unfolding climb
  climb_transfer key d x y z [] [] l e = (e, refl)
  climb_transfer key d x y z [] (t ∷ ts) l e = absurd (omega arith)
  climb_transfer key d x y z (s ∷ ss) [] l e = absurd (omega arith)
  climb_transfer key d x y z (s ∷ ss) (t ∷ ts) l e =
      let (below, _) =
        step_transfer key d (climb (d + 1) key x ss) (climb (d + 1) key y ts)
          (climb (d + 1) key x ss) (climb (d + 1) key y ts) s t e
          (step_injective laws free key d _ _ s t e) in
      let (same, up) = climb_transfer key (d + 1) x y z ss ts (omega arith) below in
      (same, (step_transfer key d _ _ _ _ s t e up).1)

  module _ (member key : Bytes) (ks : List Bytes) (p : List Bytes) (hk : IsKey key)
      (hks : All IsKey ks) where
    -- Where Poseidon has no collision and field elements are read back from their bytes: a proof
    -- that a 32-byte key is absent from the root of a set of 32-byte keys is accepted only for a
    -- key outside the set, and the root after the update is then the root of the set with the key,
    -- whatever the proof.
    pub root_after_update-set_tree :
        verify_exclusion (root (set_tree member ks)) key p ≡ true
        → (contains ks key ≡ false)
          × (root_after_update key member p ≡ value (root (set_tree member (key ∷ ks))))
    unfolding verify_exclusion root_after_update
    root_after_update-set_tree absent =
        let t = set_tree member ks in
        let own = prove t key in
        let valid = set_tree-IsTree member ks hks in
        let leaf = leaf_hash key member in
        elim (Bool-cases (contains ks key)) [
          | inl e ↦
              let present =
                verify_inclusion-prove laws t key valid hk member
                  (lookup-set_tree_in member key ks e) in
              let never = inclusion_excludes laws free (root t) key member own p present in
              absurd (cc)
          | inr out ↦
              let mine =
                verify_exclusion-prove laws t key valid hk (lookup-set_tree member key ks out) in
              let (lp, ep) = folds_to-climb laws free (root t) key (c.fr_from 0) p absent in
              let (lq, eq) = folds_to-climb laws free (root t) key (c.fr_from 0) own mine in
              let (_, up) =
                climb_transfer key 0 (c.fr_from 0) (c.fr_from 0) leaf p own (lp ∙ sym lq)
                  (to_be_injective laws free _ _ (ep ∙ sym eq)) in
              (
                out,
                fold_to_root-climb key leaf p lp
                    ∙ ap (λ x. value (fr_to_be_bytes x)) up
                    ∙ sym (fold_to_root-climb key leaf own lq)
                    ∙ root_after_update-insert laws t key valid hk member,
              )
        ]
