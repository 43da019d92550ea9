-- ===== src/Tests/Bundling.antt =====
-- A Live DA bundle of two sections, and a set of keys and its root.
use sats_usd.Base.{
  ◌≡◌, refl, sym, List, [], ◌∷◌, ◌++◌, Bytes, ok, value, true, false, replicate, contains, All,
  Bool, ltb, ◌&&◌, arith,
}
use sats_usd.Smt.{root, prove, verify_exclusion, root_after_update}
use sats_usd.Smt.Complete.{verify_exclusion-prove}
use sats_usd.Smt.Keys.{IsKey}
use sats_usd.Smt.Sets.{set_tree, set_tree-IsTree, lookup-set_tree, root_after_update-set_tree}
use sats_usd.Da.{LiveDaBundle, new_bundle, live_da_root, encode_bundle, decode_bundle}
use sats_usd.Da.RoundTrip.{Fits, decode_bundle-encode_bundle}
use sats_usd.Da.Canonical.{encode_bundle-decode_bundle}
use sats_usd.TaProof.Cursor.Numbers.{IsBytes}
use sats_usd.Tests.Registering.{key, key-IsKey}
use sats_usd.Tests.Proving.{flat}
use sats_usd.Tests.Toy.{toy, toy_field, toy_free}

abbrev all_small : Bytes → Bool
all_small [] = true
all_small (b ∷ bs) = ltb b 256 && all_small bs

all_small-IsBytes : (bs : Bytes) → all_small bs ≡ true → IsBytes bs
all_small-IsBytes [] h = tt
all_small-IsBytes (b ∷ bs) h = (ground arith, all_small-IsBytes bs (ground arith))

abbrev bundle : LiveDaBundle
bundle =
    new_bundle (key 4) 9
      (record { id = 8; content = 1 ∷ 2 ∷ [] } ∷ record { id = 1; content = 5 ∷ [] } ∷ [])

bundle-Fits : Fits bundle
unfolding new_bundle sats_usd.Da.sort_sections sats_usd.Da.insert_section sats_usd.Da.sections_wire
    sats_usd.Da.section_wire sats_usd.Encoding.u8 sats_usd.Encoding.u32 sats_usd.Encoding.be_bytes
bundle-Fits = (refl, omega arith, (omega arith, (omega arith, tt)), omega arith)

decode_bundle-encode_bundle_example :
    decode_bundle (encode_bundle ⦃c = flat⦄ bundle) ≡ ok (bundle, live_da_root ⦃c = flat⦄ bundle)
decode_bundle-encode_bundle_example =
    decode_bundle-encode_bundle ⦃c = flat⦄ (λ b. refl) bundle bundle-Fits

abbrev wire : Bytes
wire =
    83
    ∷ 85
    ∷ 83
    ∷ 68
    ∷ 68
    ∷ 65
    ∷ 48
    ∷ 49
    ∷ 1
    ∷ (key 4
        ++ (replicate 7 0
            ++ (9 ∷ (replicate 32 7 ++ (0 ∷ 0 ∷ 0 ∷ 7 ∷ 1 ∷ 0 ∷ 0 ∷ 0 ∷ 2 ∷ 6 ∷ 5 ∷ [])))))

abbrev read_back : LiveDaBundle
read_back = record {
  claim_id = key 4;
  state_epoch = 9;
  sections = record { id = 1; content = 6 ∷ 5 ∷ [] } ∷ [];
}

wire_read : decode_bundle wire ≡ ok (read_back, replicate 32 7)
unfolding decode_bundle sats_usd.TaProof.Cursor.from_be_bytes sats_usd.Da.decode_sections
wire_read = refl

root_of : live_da_root ⦃c = flat⦄ read_back ≡ replicate 32 7
unfolding live_da_root sats_usd.Crypto.sha256
root_of = refl

wire-IsBytes : IsBytes wire
wire-IsBytes = all_small-IsBytes wire refl

encode_bundle-decode_bundle_example : encode_bundle ⦃c = flat⦄ read_back ≡ wire
encode_bundle-decode_bundle_example =
    encode_bundle-decode_bundle ⦃c = flat⦄ wire read_back (replicate 32 7) wire-IsBytes wire_read
      (sym root_of)

abbrev members : List Bytes
members = key 3 ∷ key 9 ∷ []

members-IsKey : All IsKey members
members-IsKey = (key-IsKey 3 (omega arith), (key-IsKey 9 (omega arith), tt))

outside : contains members (key 5) ≡ false
outside = refl

five_absent :
    verify_exclusion ⦃c = toy⦄
      (root ⦃c = toy⦄ (set_tree ⦃c = toy⦄ (key 1) members))
      (key 5)
      (prove ⦃c = toy⦄ (set_tree ⦃c = toy⦄ (key 1) members) (key 5))
    ≡ true
five_absent =
    verify_exclusion-prove ⦃c = toy⦄ toy_field (set_tree ⦃c = toy⦄ (key 1) members) (key 5)
      (set_tree-IsTree ⦃c = toy⦄ (key 1) members members-IsKey) (key-IsKey 5 (omega arith))
      (lookup-set_tree ⦃c = toy⦄ (key 1) (key 5) members outside)

root_after_update-set_tree_example :
    (contains members (key 5) ≡ false)
    × (root_after_update ⦃c = toy⦄
          (key 5)
          (key 1)
          (prove ⦃c = toy⦄ (set_tree ⦃c = toy⦄ (key 1) members) (key 5))
        ≡ value (root ⦃c = toy⦄ (set_tree ⦃c = toy⦄ (key 1) (key 5 ∷ members))))
root_after_update-set_tree_example =
    root_after_update-set_tree ⦃c = toy⦄ toy_field toy_free (key 1) (key 5) members
      (prove ⦃c = toy⦄ (set_tree ⦃c = toy⦄ (key 1) members) (key 5)) (key-IsKey 5 (omega arith))
      members-IsKey five_absent
