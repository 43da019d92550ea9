-- ===== src/Smt.antt =====
-- crates/satusd-crypto/src/smt.rs: the sparse Merkle tree of height 256. The `BTreeMap` of leaves
-- is an association list with one entry for each key; no result depends on its order.
pub mod Path
pub mod Keys
pub mod Entries
pub mod Complete
pub mod Sound
pub mod Sets
use sats_usd.Base.{
  ℕ, zero, suc, ◌+◌, ◌-◌, ◌/◌, ◌%◌, ◌^◌, List, [], ◌∷◌, Bytes, Bool, true, false, ◌&&◌, not, Option,
  none, some, Eval, value, panicked, length, get_or, get_elem?, bytes_eq, ◌==◌, if◌then◌else◌,
}
use sats_usd.Crypto.{Crypto, fr_to_be_bytes, fr_from_be_bytes, poseidon2, hash_bytes}

-- `HEIGHT`.
abbrev pub height : ℕ
height = 256

-- `(key[depth / 8] >> (7 - depth % 8)) & 1`
unfoldable pub bit : Bytes → ℕ → ℕ
bit key depth = get_or key (depth / 8) 0 / 2 ^ (7 - depth % 8) % 2

module _ ⦃c : Crypto⦄ where
  -- The roots of the empty subtrees: `empty_roots()[h]`.
  unfoldable pub empty_root : ℕ → c.Fr
  empty_root zero = c.fr_from 0
  empty_root (suc h) = let prev = empty_root h in poseidon2 prev prev

  unfoldable pub leaf_hash : Bytes → Bytes → c.Fr
  leaf_hash key val = poseidon2 (hash_bytes key) (hash_bytes val)

  -- The entries of a `SparseMerkleTree`.
  abbrev pub Entries : Type 0
  Entries = List (Bytes × c.Fr)

  unfoldable pub insert_leaf : Bytes → c.Fr → Entries → Entries
  insert_leaf k v [] = (k, v) ∷ []
  insert_leaf k v ((j, w) ∷ m) = if bytes_eq j k then (k, v) ∷ m else (j, w) ∷ insert_leaf k v m

  unfoldable pub lookup_leaf : Bytes → Entries → Option c.Fr
  lookup_leaf k [] = none
  lookup_leaf k ((j, w) ∷ m) = if bytes_eq j k then some w else lookup_leaf k m

  -- One side of `partition`: the entries whose key has bit `b` at `depth`.
  unfoldable pub side : ℕ → ℕ → Entries → Entries
  side b depth [] = []
  side b depth ((j, w) ∷ m) =
      let others = side b depth m in if bit j depth == b then (j, w) ∷ others else others

  unfoldable pub partition : Entries → ℕ → Entries × Entries
  unfolding side
  partition entries depth = (side 0 depth entries, side 1 depth entries)

  -- `subtree`, with the levels that are left: `rest = HEIGHT - depth`.
  unfoldable pub subtree : ℕ → ℕ → Entries → c.Fr
  unfolding empty_root partition
  subtree rest depth [] = empty_root rest
  subtree zero depth (e ∷ es) = e.1
  subtree (suc rest) depth (e ∷ es) =
      poseidon2 (subtree rest (depth + 1) (partition (e ∷ es) depth).0)
        (subtree rest (depth + 1) (partition (e ∷ es) depth).1)

  -- `collect_siblings`, in the order of the depths.
  unfoldable pub collect_siblings : ℕ → ℕ → Bytes → Entries → List Bytes
  unfolding subtree partition
  collect_siblings zero depth key entries = []
  collect_siblings (suc rest) depth key entries =
      let (left, right) = partition entries depth in
      let below_left =
        fr_to_be_bytes (subtree rest (depth + 1) right)
        ∷ collect_siblings rest (depth + 1) key left in
      let below_right =
        fr_to_be_bytes (subtree rest (depth + 1) left)
        ∷ collect_siblings rest (depth + 1) key right in
      if bit key depth == 0 then below_left else below_right

  -- `SparseMerkleTree`.
  pub record SparseMerkleTree : Type 0 where
    pub leaves : Entries

  unfoldable pub new_tree : SparseMerkleTree
  new_tree = record { leaves = [] }

  unfoldable pub contains_key : SparseMerkleTree → Bytes → Bool
  unfolding lookup_leaf
  contains_key t key = elim (lookup_leaf key t.leaves) [ none ↦ false | some _ ↦ true ]

  unfoldable pub insert : Bytes → Bytes → SparseMerkleTree → SparseMerkleTree
  insert key val t = record { leaves = insert_leaf key (leaf_hash key val) t.leaves }

  unfoldable pub root : SparseMerkleTree → Bytes
  root t = fr_to_be_bytes (subtree height 0 t.leaves)

  unfoldable pub prove : SparseMerkleTree → Bytes → List Bytes
  prove t key = collect_siblings height 0 key t.leaves

  -- One level of `fold_to_root`.
  unfoldable pub fold_step : Bytes → ℕ → c.Fr → Bytes → c.Fr
  fold_step key depth cur sibling =
      let sib = fr_from_be_bytes sibling in
      if bit key depth == 0 then poseidon2 cur sib else poseidon2 sib cur

  -- `for depth in (0..n).rev()` of `fold_to_root`: `proof[depth]` out of range panics.
  unfoldable pub fold_levels : ℕ → Bytes → c.Fr → List Bytes → Eval c.Fr
  unfolding fold_step
  fold_levels zero key cur proof = value cur
  fold_levels (suc depth) key cur proof = elim (get_elem? proof depth) [
    | none ↦ panicked
    | some sib ↦ fold_levels depth key (fold_step key depth cur sib) proof
  ]

  unfoldable pub fold_to_root : Bytes → c.Fr → List Bytes → Eval Bytes
  fold_to_root key leaf proof = elim (fold_levels height key leaf proof) [
    | value cur ↦ value (fr_to_be_bytes cur)
    | panicked ↦ panicked
  ]

  -- `proof.len() == HEIGHT && &fold_to_root(..) == root`: with that length no index is out of
  -- range, so the fold gives a value.
  unfoldable pub folds_to : Bytes → Bytes → c.Fr → List Bytes → Bool
  folds_to expected key leaf proof =
      if length proof == height
      then elim (fold_to_root key leaf proof) [ value r ↦ bytes_eq r expected | panicked ↦ false ]
      else false

  unfoldable pub verify_inclusion : Bytes → Bytes → Bytes → List Bytes → Bool
  verify_inclusion expected key val proof = folds_to expected key (leaf_hash key val) proof

  unfoldable pub verify_exclusion : Bytes → Bytes → List Bytes → Bool
  verify_exclusion expected key proof = folds_to expected key (c.fr_from 0) proof

  unfoldable pub root_after_update : Bytes → Bytes → List Bytes → Eval Bytes
  root_after_update key val proof = fold_to_root key (leaf_hash key val) proof
