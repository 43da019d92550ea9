-- ===== src/Tests/Trees.antt =====
-- Proofs of a tree with two leaves.
use sats_usd.Base.{◌≡◌, refl, Bytes, true, false, none, some, value, replicate, arith}
use sats_usd.Crypto.{Crypto}
use sats_usd.Smt.{
  SparseMerkleTree, prove, root, new_tree, insert, lookup_leaf, leaf_hash, fold_to_root,
  verify_inclusion, verify_exclusion, root_after_update,
}
use sats_usd.Smt.Keys.{IsTree}
use sats_usd.Smt.Complete.{verify_exclusion-prove, root_after_update-insert}
use sats_usd.Smt.Sound.{inclusion_excludes, inclusion_unique}
use sats_usd.Tests.Registering.{key, key-IsKey, siblings, root_over}
use sats_usd.Tests.Toy.{toy, toy_field, toy_free}

abbrev two : SparseMerkleTree ⦃c = toy⦄
two = insert ⦃c = toy⦄ (key 200) (key 8) (insert ⦃c = toy⦄ (key 3) (key 7) (new_tree ⦃c = toy⦄))

two-IsTree : IsTree ⦃c = toy⦄ two.leaves
unfolding insert sats_usd.Smt.insert_leaf new_tree
two-IsTree = (key-IsKey 3 (omega arith), (key-IsKey 200 (omega arith), tt))

absent_5 : lookup_leaf ⦃c = toy⦄ (key 5) two.leaves ≡ none
unfolding insert lookup_leaf sats_usd.Smt.insert_leaf new_tree
absent_5 = refl

present_200 :
    lookup_leaf ⦃c = toy⦄ (key 200) two.leaves ≡ some (leaf_hash ⦃c = toy⦄ (key 200) (key 8))
unfolding insert lookup_leaf sats_usd.Smt.insert_leaf new_tree
present_200 = refl

verify_exclusion-prove_example :
    verify_exclusion ⦃c = toy⦄ (root ⦃c = toy⦄ two) (key 5) (prove ⦃c = toy⦄ two (key 5)) ≡ true
verify_exclusion-prove_example =
    verify_exclusion-prove ⦃c = toy⦄ toy_field two (key 5) two-IsTree (key-IsKey 5 (omega arith))
      absent_5

root_after_update-insert_example :
    root_after_update ⦃c = toy⦄ (key 5) (key 9) (prove ⦃c = toy⦄ two (key 5))
    ≡ value (root ⦃c = toy⦄ (insert ⦃c = toy⦄ (key 5) (key 9) two))
root_after_update-insert_example =
    root_after_update-insert ⦃c = toy⦄ toy_field two (key 5) two-IsTree (key-IsKey 5 (omega arith))
      (key 9)

abbrev top : Bytes
top = root_over (key 3) (leaf_hash ⦃c = toy⦄ (key 3) (key 7))

included : verify_inclusion ⦃c = toy⦄ top (key 3) (key 7) siblings ≡ true
unfolding verify_inclusion sats_usd.Smt.folds_to fold_to_root sats_usd.Smt.fold_levels
    sats_usd.Crypto.fr_to_be_bytes sats_usd.Smt.bit sats_usd.Crypto.poseidon2
    sats_usd.Crypto.fr_from_be_bytes leaf_hash sats_usd.Crypto.hash_bytes
included = refl

inclusion_excludes_example : verify_exclusion ⦃c = toy⦄ top (key 3) (replicate 256 (key 1)) ≡ false
inclusion_excludes_example =
    inclusion_excludes ⦃c = toy⦄ toy_field toy_free top (key 3) (key 7) siblings
      (replicate 256 (key 1)) included

inclusion_unique_example : key 7 ≡ key 7
inclusion_unique_example =
    inclusion_unique ⦃c = toy⦄ toy_field toy_free top (key 3) (key 7) (key 7) siblings siblings
      (key-IsKey 7 (omega arith)) (key-IsKey 7 (omega arith)) included included
