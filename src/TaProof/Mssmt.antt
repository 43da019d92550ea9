-- ===== src/TaProof/Mssmt.antt =====
-- crates/satusd-ta-proof/src/mssmt.rs: proofs of a Merkle sum tree of 256 levels.
pub mod Sums
use sats_usd.Base.{
  ℕ, zero, suc, ◌+◌, ◌-◌, ◌*◌, ◌/◌, ◌%◌, ◌^◌, List, [], ◌∷◌, ◌++◌, Bytes, Option, none, some, Eval,
  value, panicked, length, take, drop, get_or, get_elem?, replicate, leb, ltb, ◌==◌, checked_add,
  if◌then◌else◌, Bool,
}
use sats_usd.Crypto.{Crypto, sha256}
use sats_usd.Encoding.{u64}
use sats_usd.TaProof.Cursor.{from_be_bytes}

abbrev pub tree_levels : ℕ
tree_levels = 256

pub record Node : Type 0 where
  pub hash : Bytes
  pub sum : ℕ

-- The bit `i`, lowest first: `(bits[i / 8] >> (i % 8)) & 1 == 1`.
unfoldable pub bit_lsb : Bytes → ℕ → Bool
bit_lsb bits i = get_or bits (i / 8) 0 / 2 ^ (i % 8) % 2 == 1

module _ ⦃c : Crypto⦄ where
  unfoldable pub leaf : Bytes → ℕ → Node
  leaf content sum = record { hash = sha256 (content ∷ u64 sum ∷ []); sum = sum }

  -- `expect("mssmt sum overflow")` panics.
  unfoldable pub branch : Node → Node → Eval Node
  branch l r = elim (checked_add l.sum r.sum) [
    | none ↦ panicked
    | some sum ↦ value (record { hash = sha256 (l.hash ∷ r.hash ∷ u64 sum ∷ []); sum = sum })
  ]

  -- `empty_tree()[TREE_LEVELS - h]`: sums of zero, so that its `branch` does not panic.
  unfoldable pub empty_node : ℕ → Node
  empty_node zero = leaf [] 0
  empty_node (suc h) =
      let child = empty_node h in
      record { hash = sha256 (child.hash ∷ child.hash ∷ u64 0 ∷ []); sum = 0 }

  -- The loop over the explicit nodes.
  unfoldable pub read_nodes : ℕ → Bytes → Option (List Node × Bytes)
  read_nodes zero b = some ([], b)
  read_nodes (suc n) b =
      let rest = read_nodes n (drop 40 b) in
      if leb 40 (length b)
      then elim rest [
        | none ↦ none
        | some (nodes, left) ↦
            some
              (record { hash = take 32 b; sum = from_be_bytes (take 8 (drop 32 b)) } ∷ nodes, left)
      ]
      else none

  -- The loop over the siblings from level `i` on, `n` of them left.
  unfoldable pub spread : ℕ → ℕ → Bytes → List Node → Option (List Node × List Node)
  spread zero i bits explicit = some ([], explicit)
  spread (suc n) i bits [] =
      if bit_lsb bits i
      then elim (spread n (i + 1) bits []) [
        | none ↦ none
        | some (sibs, left) ↦ some (empty_node i ∷ sibs, left)
      ]
      else none
  spread (suc n) i bits (e ∷ explicit) =
      if bit_lsb bits i
      then elim (spread n (i + 1) bits (e ∷ explicit)) [
        | none ↦ none
        | some (sibs, left) ↦ some (empty_node i ∷ sibs, left)
      ]
      else elim (spread n (i + 1) bits explicit) [
        | none ↦ none
        | some (sibs, left) ↦ some (e ∷ sibs, left)
      ]

  -- The siblings of an `InclusionProof`, those at the leaf first.
  unfoldable pub parse_compressed_proof : Bytes → Option (List Node)
  parse_compressed_proof bytes =
      if ltb (length bytes) 2
      then none
      else elim (read_nodes (from_be_bytes (take 2 bytes)) (drop 2 bytes)) [
        | none ↦ none
        | some (explicit, bits) ↦
            if length bits == 32
            then elim (spread tree_levels 0 bits explicit) [
              | none ↦ none
              | some (sibs, []) ↦ some sibs
              | some (sibs, _ ∷ _) ↦ none
            ]
            else none
      ]

  -- `proof_root` from the level `i` down to 0: the root with the hashes of its two children.
  unfoldable pub walk_up :
      ℕ → Bytes → Node → List Node → Bytes → Bytes → Eval (Node × Bytes × Bytes)
  walk_up zero key cur sibs top_l top_r = value (cur, top_l, top_r)
  walk_up (suc i) key cur [] top_l top_r = panicked
  walk_up (suc i) key cur (sib ∷ sibs) top_l top_r =
      let l = if bit_lsb key i then sib else cur in
      let r = if bit_lsb key i then cur else sib in
      elim (branch l r) [ panicked ↦ panicked | value up ↦ walk_up i key up sibs l.hash r.hash ]

  -- The hashes that are returned are those of the last level, which is the only one to set them.
  unfoldable pub proof_root : Bytes → Node → List Node → Eval (Node × Bytes × Bytes)
  proof_root key leaf_node siblings =
      walk_up tree_levels key leaf_node siblings (replicate 32 0) (replicate 32 0)
