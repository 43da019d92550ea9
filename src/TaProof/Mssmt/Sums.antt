-- ===== src/TaProof/Mssmt/Sums.antt =====
-- The sums along a Merkle sum path.
use sats_usd.Base.{
  ℕ, zero, suc, ◌+◌, ◌^◌, ◌<◌, Bool, true, false, Eval-cases, inl, inr, ◌≡◌, List, [], ◌∷◌, Bytes,
  value, if◌then◌else◌, arith,
}
use sats_usd.Crypto.{Crypto}
use sats_usd.TaProof.Mssmt.{Node, bit_lsb, branch, walk_up, proof_root, tree_levels}

-- The sums of the siblings that a walk of `n` levels meets.
abbrev pub sibling_sums : ℕ → List Node → ℕ
sibling_sums zero sibs = 0
sibling_sums (suc n) [] = 0
sibling_sums (suc n) (s ∷ sibs) = s.sum + sibling_sums n sibs

module _ ⦃c : Crypto⦄ where
  branch_sum : (l r n : Node) → branch l r ≡ value n → (n.sum ≡ l.sum + r.sum) × (n.sum < 2 ^ 64)
  unfolding branch
  branch_sum l r n e = ground arith

  -- The sums of a pair do not depend on its order.
  swapped_sum :
      (b : Bool) (sib cur n : Node)
      → branch (if b then sib else cur) (if b then cur else sib) ≡ value n
      → (n.sum ≡ cur.sum + sib.sum) × (n.sum < 2 ^ 64)
  swapped_sum true sib cur n e = omega (arith, branch_sum sib cur n e)
  swapped_sum false sib cur n e = branch_sum cur sib n e

  walk_up_sum :
      (i : ℕ) (key : Bytes) (cur : Node) (sibs : List Node) (l r l' r' : Bytes) (root : Node)
      → cur.sum < 2 ^ 64
      → walk_up i key cur sibs l r ≡ value (root, l', r')
      → (root.sum ≡ cur.sum + sibling_sums i sibs) × (root.sum < 2 ^ 64)
  unfolding walk_up
  walk_up_sum zero key cur sibs l r l' r' root fits e = ground arith
  walk_up_sum (suc i) key cur [] l r l' r' root fits e = absurd (cc)
  walk_up_sum (suc i) key cur (sib ∷ sibs) l r l' r' root fits e =
      let b = bit_lsb key i in
      elim (Eval-cases (branch (if b then sib else cur) (if b then cur else sib))) [
        | inl p ↦ absurd (cc)
        | inr (n, p) ↦
            let (now, small) = swapped_sum b sib cur n p in
            let (more, fits') =
              walk_up_sum i key n sibs (if b then sib else cur).hash (if b then cur else sib).hash
                l' r' root small (ground arith) in
            (omega arith, fits')
      ]

  -- The root of a path from a leaf whose sum fits in 64 bits, where it is computed without a
  -- panic, carries the sum of the leaf and of the 256 siblings, which fits in 64 bits.
  pub proof_root_sum :
      (key : Bytes) (leaf_node : Node) (siblings : List Node) (root : Node) (l r : Bytes)
      → leaf_node.sum < 2 ^ 64
      → proof_root key leaf_node siblings ≡ value (root, l, r)
      → (root.sum ≡ leaf_node.sum + sibling_sums tree_levels siblings) × (root.sum < 2 ^ 64)
  unfolding proof_root
  proof_root_sum key leaf_node siblings root l r fits e =
      walk_up_sum tree_levels key leaf_node siblings _ _ l r root fits e
