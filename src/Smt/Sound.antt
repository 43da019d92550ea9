-- ===== src/Smt/Sound.antt =====
-- What a root proves where Poseidon has no collision.
use mathlib.Core.Path.{ap₂}
use sats_usd.Base.{
  ℕ, zero, suc, ◌+◌, ◌≤◌, ◌<◌, ◌≡◌, ◌≢◌, refl, sym, ◌∙◌, ap, List, [], ◌∷◌, ◌++◌, Bytes, true,
  false, value, length, take, drop, All, arith, bytes_eq, bytes_eq→eq, bytes_eq_refl, ◌==◌, inl,
  inr, Bool-cases, All-take, All-drop, length-drop, length-take_le, take-append-drop,
}
use sats_usd.Crypto.{
  Crypto, fr_to_be_bytes, fr_from_be_bytes, poseidon2, hash_bytes, fold_limbs, chunks_31,
}
use sats_usd.Smt.{
  height, leaf_hash, fold_step, folds_to, verify_inclusion, verify_exclusion, root_after_update,
}
use sats_usd.Smt.Keys.{IsKey}
use sats_usd.Smt.Path.{climb}
use sats_usd.Smt.Entries.{bit_cases}
use sats_usd.Smt.Complete.{FieldBytes, fold_to_root-climb, fold_step_left, fold_step_right}

-- Poseidon on two elements has no collision and never gives zero; a limb of at most 31 bytes can
-- be read back from its field element.
pub record CollisionFree (c : Crypto) : Type 0 where
  pub poseidon2_injective :
      (a b x y : c.Fr) → poseidon2 ⦃c = c⦄ a b ≡ poseidon2 ⦃c = c⦄ x y → (a ≡ x) × (b ≡ y)
  pub poseidon2_nonzero : (a b : c.Fr) → poseidon2 ⦃c = c⦄ a b ≢ c.fr_from 0
  pub limb_injective :
      (a b : Bytes)
      → length a ≡ length b
      → length a ≤ 31
      → All (λ x. x < 256) a
      → All (λ x. x < 256) b
      → fr_from_be_bytes ⦃c = c⦄ a ≡ fr_from_be_bytes ⦃c = c⦄ b
      → a ≡ b

chunk_short : (f : ℕ) (ys : Bytes) → length ys ≡ 1 → chunks_31 (suc f) ys ≡ ys ∷ []
unfolding chunks_31
chunk_short f [] h = absurd (omega arith)
chunk_short zero (y ∷ []) h = refl
chunk_short (suc f) (y ∷ []) h = refl
chunk_short f (y ∷ z ∷ ys) h = absurd (omega arith)

chunks_key : (x : Bytes) → length x ≡ 32 → chunks_31 32 x ≡ take 31 x ∷ drop 31 x ∷ []
unfolding chunks_31
chunks_key [] h = absurd (omega arith)
chunks_key (b ∷ bs) h =
    ap (λ t. take 31 (b ∷ bs) ∷ t)
      (chunk_short 30 (drop 31 (b ∷ bs)) (omega (arith, length-drop 31 (b ∷ bs))))

hash_key :
    ⦃c : Crypto⦄ (x : Bytes)
    → length x ≡ 32
    → hash_bytes x
      ≡ poseidon2
          (poseidon2 (c.fr_from 0) (fr_from_be_bytes (take 31 x)))
          (fr_from_be_bytes (drop 31 x))
unfolding hash_bytes fold_limbs
hash_key ⦃c⦄ x h =
    ap (λ n. fold_limbs (c.fr_from 0) (chunks_31 n x)) h
    ∙ ap (fold_limbs (c.fr_from 0)) (chunks_key x h)

module _ ⦃c : Crypto⦄ (laws : FieldBytes c) (free : CollisionFree c) where
  pub to_be_injective : (x y : c.Fr) → fr_to_be_bytes x ≡ fr_to_be_bytes y → x ≡ y
  to_be_injective x y e = sym (laws.from_to x) ∙ ap fr_from_be_bytes e ∙ laws.from_to y

  pub step_injective :
      (key : Bytes) (d : ℕ) (x y : c.Fr) (s t : Bytes)
      → fold_step key d x s ≡ fold_step key d y t
      → x ≡ y
  step_injective key d x y s t e = elim (bit_cases key d) [
    | inl b ↦
        (free.poseidon2_injective x (fr_from_be_bytes s) y (fr_from_be_bytes t)
          (sym (fold_step_left key d x s b) ∙ e ∙ fold_step_left key d y t b)).0
    | inr b ↦
        (free.poseidon2_injective (fr_from_be_bytes s) x (fr_from_be_bytes t) y
          (sym (fold_step_right key d x s b) ∙ e ∙ fold_step_right key d y t b)).1
  ]

  climb_injective :
      (key : Bytes) (d : ℕ) (x y : c.Fr) (ss ts : List Bytes)
      → length ss ≡ length ts
      → climb d key x ss ≡ climb d key y ts
      → x ≡ y
  unfolding climb
  climb_injective key d x y [] [] l e = e
  climb_injective key d x y [] (t ∷ ts) l e = absurd (omega arith)
  climb_injective key d x y (s ∷ ss) [] l e = absurd (omega arith)
  climb_injective key d x y (s ∷ ss) (t ∷ ts) l e =
      climb_injective key (d + 1) x y ss ts (omega arith)
        (step_injective key d (climb (d + 1) key x ss) (climb (d + 1) key y ts) s t e)

  -- What an accepted proof says.
  pub folds_to-climb :
      (expected key : Bytes) (leaf : c.Fr) (proof : List Bytes)
      → folds_to expected key leaf proof ≡ true
      → (length proof ≡ height) × (fr_to_be_bytes (climb 0 key leaf proof) ≡ expected)
  unfolding folds_to
  folds_to-climb expected key leaf proof e =
      let full : length proof ≡ height = ground arith in
      let up = fold_to_root-climb key leaf proof full in
      let same : bytes_eq (fr_to_be_bytes (climb 0 key leaf proof)) expected ≡ true =
        rw (full, up, folds_to) at e in
      (full, bytes_eq→eq (fr_to_be_bytes (climb 0 key leaf proof)) expected same)

  leaf_unique :
      (expected key : Bytes) (x y : c.Fr) (p q : List Bytes)
      → folds_to expected key x p ≡ true
      → folds_to expected key y q ≡ true
      → x ≡ y
  leaf_unique expected key x y p q e f =
      let (lp, ep) = folds_to-climb expected key x p e in
      let (lq, eq) = folds_to-climb expected key y q f in
      climb_injective key 0 x y p q (lp ∙ sym lq)
        (to_be_injective (climb 0 key x p) (climb 0 key y q) (ep ∙ sym eq))

  -- Where Poseidon has no collision and field elements are read back from their bytes, a root for
  -- which one proof shows a key present has no proof that shows the key absent.
  pub inclusion_excludes :
      (expected key val : Bytes) (p q : List Bytes)
      → verify_inclusion expected key val p ≡ true
      → verify_exclusion expected key q ≡ false
  unfolding verify_inclusion verify_exclusion leaf_hash
  inclusion_excludes expected key val p q e = elim (Bool-cases (verify_exclusion expected key q)) [
    | inl f ↦ absurd (
        free.poseidon2_nonzero (hash_bytes key) (hash_bytes val)
          (leaf_unique expected key (leaf_hash key val) (c.fr_from 0) p q e f))
    | inr f ↦ f
  ]

  hash_bytes_injective : (x y : Bytes) → IsKey x → IsKey y → hash_bytes x ≡ hash_bytes y → x ≡ y
  hash_bytes_injective x y hx hy e =
      let (front, back) =
        free.poseidon2_injective (poseidon2 (c.fr_from 0) (fr_from_be_bytes (take 31 x)))
          (fr_from_be_bytes (drop 31 x)) (poseidon2 (c.fr_from 0) (fr_from_be_bytes (take 31 y)))
          (fr_from_be_bytes (drop 31 y)) (sym (hash_key x hx.0) ∙ e ∙ hash_key y hy.0) in
      let first =
        free.limb_injective (take 31 x) (take 31 y)
          (omega (arith, length-take_le x 31, length-take_le y 31))
          (omega (arith, length-take_le x 31)) (All-take (λ b. b < 256) 31 x hx.1)
          (All-take (λ b. b < 256) 31 y hy.1)
          (free.poseidon2_injective (c.fr_from 0) (fr_from_be_bytes (take 31 x)) (c.fr_from 0)
            (fr_from_be_bytes (take 31 y)) front).1 in
      let second =
        free.limb_injective (drop 31 x) (drop 31 y)
          (omega (arith, length-drop 31 x, length-drop 31 y)) (omega (arith, length-drop 31 x))
          (All-drop (λ b. b < 256) 31 x hx.1) (All-drop (λ b. b < 256) 31 y hy.1) back in
      sym (take-append-drop 31 x) ∙ ap₂ ◌++◌ first second ∙ take-append-drop 31 y

  -- Where Poseidon has no collision and field elements are read back from their bytes, a root does
  -- not prove one key present with two 32-byte values.
  pub inclusion_unique :
      (expected key v w : Bytes) (p q : List Bytes)
      → IsKey v
      → IsKey w
      → verify_inclusion expected key v p ≡ true
      → verify_inclusion expected key w q ≡ true
      → v ≡ w
  unfolding verify_inclusion leaf_hash
  inclusion_unique expected key v w p q hv hw e f =
      hash_bytes_injective v w hv hw
        (free.poseidon2_injective (hash_bytes key) (hash_bytes v) (hash_bytes key) (hash_bytes w)
          (leaf_unique expected key (leaf_hash key v) (leaf_hash key w) p q e f)).1

-- Where a proof has shown a key absent, the root after the update proves it present with the new
-- value, by the same siblings.
pub updated_included :
    ⦃c : Crypto⦄ (key val before expected : Bytes) (p : List Bytes)
    → verify_exclusion before key p ≡ true
    → root_after_update key val p ≡ value expected
    → verify_inclusion expected key val p ≡ true
unfolding verify_inclusion verify_exclusion root_after_update folds_to
updated_included key val before expected p absent e =
    let long : (length p == height) ≡ true = ground arith in
    ground (arith, long, bytes_eq_refl expected)
