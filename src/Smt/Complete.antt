-- ===== src/Smt/Complete.antt =====
-- A tree's own proofs against its root, and the root after an update.
use mathlib.Core.Path.{subst}
use sats_usd.Base.{
  ℕ, zero, suc, ◌+◌, ◌≡◌, refl, sym, ◌∙◌, ap, List, [], ◌∷◌, Bytes, some, none, value, true, inl,
  inr, length, take, arith, bytes_eq_refl, eq→bytes_eq,
}
use sats_usd.Crypto.{Crypto, fr_to_be_bytes, fr_from_be_bytes, poseidon2}
use sats_usd.Smt.{
  bit, height, Entries, leaf_hash, insert_leaf, lookup_leaf, side, subtree, collect_siblings,
  SparseMerkleTree, insert, root, prove, fold_step, fold_levels, fold_to_root, folds_to,
  verify_inclusion, verify_exclusion, root_after_update,
}
use sats_usd.Smt.Keys.{IsKey, IsTree, IsTree-Separates, insert_leaf-IsTree}
use sats_usd.Smt.Path.{climb, fold_levels-climb, take_all}
use sats_usd.Smt.Entries.{
  Separates, leaf_or_zero, leaf_at, insert-side_at, side-Separates_at, leaf-side_at, bit_cases,
  lookup-insert, insert-side_other,
}

-- The bytes of a field element give it back.
pub record FieldBytes (c : Crypto) : Type 0 where
  pub from_to : (x : c.Fr) → fr_from_be_bytes ⦃c = c⦄ (fr_to_be_bytes ⦃c = c⦄ x) ≡ x

module _ ⦃c : Crypto⦄ where
  -- A node is the hash of its two sides, also where it is empty.
  subtree_node :
      (rest d : ℕ) (es : Entries)
      → subtree (suc rest) d es
        ≡ poseidon2 (subtree rest (d + 1) (side 0 d es)) (subtree rest (d + 1) (side 1 d es))
  unfolding subtree
  subtree_node rest d [] = refl
  subtree_node rest d (e ∷ es) = refl

  length-siblings :
      (rest d : ℕ) (key : Bytes) (es : Entries) → length (collect_siblings rest d key es) ≡ rest
  unfolding collect_siblings
  length-siblings zero d key es = refl
  length-siblings (suc rest) d key es = ground (
    arith,
    length-siblings rest (d + 1) key (side 0 d es),
    length-siblings rest (d + 1) key (side 1 d es),
  )

  subtree_leaf :
      (d : ℕ) (key : Bytes) (es : Entries) → Separates 0 d key es → leaf_at key es ≡ subtree 0 d es
  unfolding subtree lookup_leaf
  subtree_leaf d key [] h = refl
  subtree_leaf d key ((j, w) ∷ es) h =
      let same : j ≡ key = h.0 (λ i lo hi. absurd (omega arith)) in
      ground (arith, eq→bytes_eq j key same)

  siblings_left :
      (rest d : ℕ) (key : Bytes) (es : Entries)
      → bit key d ≡ 0
      → collect_siblings (suc rest) d key es
        ≡ fr_to_be_bytes (subtree rest (d + 1) (side 1 d es))
          ∷ collect_siblings rest (d + 1) key (side 0 d es)
  unfolding collect_siblings
  siblings_left rest d key es b = ground arith

  siblings_right :
      (rest d : ℕ) (key : Bytes) (es : Entries)
      → bit key d ≡ 1
      → collect_siblings (suc rest) d key es
        ≡ fr_to_be_bytes (subtree rest (d + 1) (side 0 d es))
          ∷ collect_siblings rest (d + 1) key (side 1 d es)
  unfolding collect_siblings
  siblings_right rest d key es b = ground arith

  pub fold_step_left :
      (key : Bytes) (d : ℕ) (cur : c.Fr) (s : Bytes)
      → bit key d ≡ 0
      → fold_step key d cur s ≡ poseidon2 cur (fr_from_be_bytes s)
  unfolding fold_step
  fold_step_left key d cur s b = ground arith

  pub fold_step_right :
      (key : Bytes) (d : ℕ) (cur : c.Fr) (s : Bytes)
      → bit key d ≡ 1
      → fold_step key d cur s ≡ poseidon2 (fr_from_be_bytes s) cur
  unfolding fold_step
  fold_step_right key d cur s b = ground arith

  climb_cons :
      (d : ℕ) (key : Bytes) (leaf : c.Fr) (s : Bytes) (ss : List Bytes)
      → climb d key leaf (s ∷ ss) ≡ fold_step key d (climb (d + 1) key leaf ss) s
  unfolding climb
  climb_cons d key leaf s ss = refl

  siblings-insert :
      (rest d : ℕ) (key : Bytes) (v : c.Fr) (es : Entries)
      → collect_siblings rest d key (insert_leaf key v es) ≡ collect_siblings rest d key es
  unfolding collect_siblings
  siblings-insert zero d key v es = refl
  siblings-insert (suc rest) d key v es = elim (bit_cases key d) [
    | inl b ↦ rw (
      siblings_left rest d key (insert_leaf key v es) b,
      siblings_left rest d key es b,
      insert-side_other 1 d key v es (omega arith),
      insert-side_at 0 d key v es b,
      siblings-insert rest (d + 1) key v (side 0 d es),
    )
    | inr b ↦ rw (
      siblings_right rest d key (insert_leaf key v es) b,
      siblings_right rest d key es b,
      insert-side_other 0 d key v es (omega arith),
      insert-side_at 1 d key v es b,
      siblings-insert rest (d + 1) key v (side 1 d es),
    )
  ]

  below :
      (b rest d : ℕ) (key : Bytes) (es : Entries)
      → bit key d ≡ b
      → climb
          (d + 1)
          key
          (leaf_at key (side b d es))
          (collect_siblings rest (d + 1) key (side b d es))
        ≡ subtree rest (d + 1) (side b d es)
      → climb (d + 1) key (leaf_at key es) (collect_siblings rest (d + 1) key (side b d es))
        ≡ subtree rest (d + 1) (side b d es)
  below b rest d key es e h =
      subst
        (λ x.
          climb (d + 1) key x (collect_siblings rest (d + 1) key (side b d es))
          ≡ subtree rest (d + 1) (side b d es))
        (leaf-side_at b d key es e) h

  module _ (laws : FieldBytes c) where
    -- Climbing from a key's leaf through the siblings gives the subtree's root.
    climb-siblings :
        (rest d : ℕ) (key : Bytes) (es : Entries)
        → Separates rest d key es
        → climb d key (leaf_at key es) (collect_siblings rest d key es) ≡ subtree rest d es
    unfolding climb collect_siblings
    climb-siblings zero d key es h = subtree_leaf d key es h
    climb-siblings (suc rest) d key es h = elim (bit_cases key d) [
      | inl b ↦
          rw
            (
              siblings_left rest d key es b,
              climb_cons d key (leaf_at key es)
                  (fr_to_be_bytes (subtree rest (d + 1) (side 1 d es)))
                  (collect_siblings rest (d + 1) key (side 0 d es)),
              fold_step_left key d
                  (climb (d + 1) key (leaf_at key es)
                    (collect_siblings rest (d + 1) key (side 0 d es)))
                  (fr_to_be_bytes (subtree rest (d + 1) (side 1 d es))) b,
              laws.from_to (subtree rest (d + 1) (side 1 d es)),
              subtree_node rest d es,
            )
            (ap (λ t. poseidon2 t (subtree rest (d + 1) (side 1 d es)))
              (below 0 rest d key es b (
                climb-siblings rest (d + 1) key (side 0 d es)
                  (side-Separates_at 0 rest d key es b h))))
      | inr b ↦
          rw
            (
              siblings_right rest d key es b,
              climb_cons d key (leaf_at key es)
                  (fr_to_be_bytes (subtree rest (d + 1) (side 0 d es)))
                  (collect_siblings rest (d + 1) key (side 1 d es)),
              fold_step_right key d
                  (climb (d + 1) key (leaf_at key es)
                    (collect_siblings rest (d + 1) key (side 1 d es)))
                  (fr_to_be_bytes (subtree rest (d + 1) (side 0 d es))) b,
              laws.from_to (subtree rest (d + 1) (side 0 d es)),
              subtree_node rest d es,
            )
            (ap (poseidon2 (subtree rest (d + 1) (side 0 d es))) (
              below 1 rest d key es b (
                climb-siblings rest (d + 1) key (side 1 d es)
                  (side-Separates_at 1 rest d key es b h))))
    ]

  length-prove : (t : SparseMerkleTree) (key : Bytes) → length (prove t key) ≡ height
  unfolding prove
  length-prove t key = length-siblings height 0 key t.leaves

  pub fold_to_root-climb :
      (key : Bytes) (leaf : c.Fr) (proof : List Bytes)
      → length proof ≡ height
      → fold_to_root key leaf proof ≡ value (fr_to_be_bytes (climb 0 key leaf proof))
  unfolding fold_to_root
  fold_to_root-climb key leaf proof h =
      let up : fold_levels height key leaf proof ≡ value (climb 0 key leaf proof) =
        fold_levels-climb height key leaf proof (omega arith)
        ∙ ap (λ n. value (climb 0 key leaf (take n proof))) (sym h)
        ∙ ap (λ p. value (climb 0 key leaf p)) (take_all proof) in
      rw (up, fold_to_root)

  module _ (laws : FieldBytes c) (t : SparseMerkleTree) (key : Bytes) (valid : IsTree t.leaves)
      (hk : IsKey key) where
    -- The fold of a tree's own proof from the leaf at the key gives the tree's root.
    fold_prove : fold_to_root key (leaf_at key t.leaves) (prove t key) ≡ value (root t)
    unfolding prove root
    fold_prove =
        fold_to_root-climb key (leaf_at key t.leaves) (prove t key) (length-prove t key)
        ∙ ap (λ x. value (fr_to_be_bytes x))
            (climb-siblings laws height 0 key t.leaves (IsTree-Separates key t.leaves hk valid))

    folds_to-prove : folds_to (root t) key (leaf_at key t.leaves) (prove t key) ≡ true
    unfolding folds_to
    folds_to-prove =
        let full : length (prove t key) ≡ height = length-prove t key in
        rw (full, fold_prove, folds_to) (bytes_eq_refl (root t))

    -- Where field elements are read back from their bytes, the proof that a tree with 32-byte keys
    -- makes for a 32-byte key that it lacks is accepted against its root as a proof of exclusion.
    pub verify_exclusion-prove :
        lookup_leaf key t.leaves ≡ none → verify_exclusion (root t) key (prove t key) ≡ true
    unfolding verify_exclusion
    verify_exclusion-prove e =
        subst (λ o. folds_to (root t) key (leaf_or_zero o) (prove t key) ≡ true) e folds_to-prove

    -- Where field elements are read back from their bytes, the proof that a tree with 32-byte keys
    -- makes for a 32-byte key whose leaf it holds is accepted against its root as a proof of
    -- inclusion.
    pub verify_inclusion-prove :
        (val : Bytes)
        → lookup_leaf key t.leaves ≡ some (leaf_hash key val)
        → verify_inclusion (root t) key val (prove t key) ≡ true
    unfolding verify_inclusion
    verify_inclusion-prove val e =
        subst (λ o. folds_to (root t) key (leaf_or_zero o) (prove t key) ≡ true) e folds_to-prove

  prove-insert :
      (t : SparseMerkleTree) (key val : Bytes) → prove (insert key val t) key ≡ prove t key
  unfolding prove insert
  prove-insert t key val = siblings-insert height 0 key (leaf_hash key val) t.leaves

  lookup-insert_tree :
      (t : SparseMerkleTree) (key val : Bytes)
      → lookup_leaf key (insert key val t).leaves ≡ some (leaf_hash key val)
  unfolding insert
  lookup-insert_tree t key val = lookup-insert key (leaf_hash key val) t.leaves

  pub insert-IsTree :
      (t : SparseMerkleTree) (key val : Bytes)
      → IsKey key
      → IsTree t.leaves
      → IsTree (insert key val t).leaves
  unfolding insert
  insert-IsTree t key val hk h = insert_leaf-IsTree key (leaf_hash key val) t.leaves hk h

  -- Where field elements are read back from their bytes, the root that the verifier computes from
  -- a tree's proof for a key and a new value is the root of the tree after the insertion, for a
  -- tree and a key of 32 bytes.
  pub root_after_update-insert :
      (laws : FieldBytes c) (t : SparseMerkleTree) (key : Bytes)
      → IsTree t.leaves
      → IsKey key
      → (val : Bytes) → root_after_update key val (prove t key) ≡ value (root (insert key val t))
  unfolding root_after_update
  root_after_update-insert laws t key valid hk val =
      let old = fold_prove laws (insert key val t) key (insert-IsTree t key val hk valid) hk in
      let at_leaf =
        subst
          (λ o.
            fold_to_root key (leaf_or_zero o) (prove (insert key val t) key)
            ≡ value (root (insert key val t)))
          (lookup-insert_tree t key val) old in
      subst (λ p. fold_to_root key (leaf_hash key val) p ≡ value (root (insert key val t)))
        (prove-insert t key val) at_leaf
