-- ===== src/Smt/Path.antt =====
-- `fold_to_root` walks up a path; `climb` is the same fold, read from the top.
use sats_usd.Base.{
  ℕ, zero, suc, ◌+◌, ◌≤◌, ◌<◌, ◌≡◌, refl, sym, ◌∙◌, ap, List, [], ◌∷◌, ◌++◌, Bytes, some, value,
  length, take, get_elem?, length-take_le, arith,
}
use sats_usd.Crypto.{Crypto}
use sats_usd.Smt.{fold_step, fold_levels}

module _ {ℓ} {A : Type ℓ} where
  elem_at : (xs : List A) (n : ℕ) → n < length xs → (a : A) × (get_elem? xs n ≡ some a)
  elem_at [] n h = absurd (omega arith)
  elem_at (x ∷ xs) zero h = (x, refl)
  elem_at (x ∷ xs) (suc n) h = elem_at xs n (omega arith)

  take_snoc :
      (xs : List A) (n : ℕ) {a : A}
      → get_elem? xs n ≡ some a
      → take (suc n) xs ≡ take n xs ++ a ∷ []
  take_snoc [] n e = absurd (cc)
  take_snoc (x ∷ xs) zero e = cc
  take_snoc (x ∷ xs) (suc n) e = ap (λ t. x ∷ t) (take_snoc xs n e)

  pub take_all : (xs : List A) → take (length xs) xs ≡ xs
  take_all [] = refl
  take_all (x ∷ xs) = ap (λ t. x ∷ t) (take_all xs)

module _ ⦃c : Crypto⦄ where
  unfoldable pub climb : ℕ → Bytes → c.Fr → List Bytes → c.Fr
  climb depth key leaf [] = leaf
  climb depth key leaf (s ∷ ss) = fold_step key depth (climb (depth + 1) key leaf ss) s

  climb_snoc :
      (depth : ℕ) (key : Bytes) (leaf : c.Fr) (ss : List Bytes) (s : Bytes)
      → climb depth key leaf (ss ++ s ∷ [])
        ≡ climb depth key (fold_step key (depth + length ss) leaf s) ss
  unfolding climb
  climb_snoc depth key leaf [] s = ap (λ d. fold_step key d leaf s) (omega arith)
  climb_snoc depth key leaf (t ∷ ss) s =
      ap (λ u. fold_step key depth u t)
        (climb_snoc (depth + 1) key leaf ss s
          ∙ ap (λ d. climb (depth + 1) key (fold_step key d leaf s) ss) (omega arith))

  -- The fold up from level n is the climb through the first n siblings.
  pub fold_levels-climb :
      (n : ℕ) (key : Bytes) (cur : c.Fr) (proof : List Bytes)
      → n ≤ length proof
      → fold_levels n key cur proof ≡ value (climb 0 key cur (take n proof))
  unfolding fold_levels climb
  fold_levels-climb zero key cur proof h = refl
  fold_levels-climb (suc n) key cur proof h =
      let (s, e) = elem_at proof n (omega arith) in
      rw (e, fold_levels)
        (fold_levels-climb n key (fold_step key n cur s) proof (omega arith)
          ∙ ap value (
              ap (λ d. climb 0 key (fold_step key d cur s) (take n proof))
                (omega (arith, length-take_le proof n (omega arith)))
              ∙ sym (climb_snoc 0 key cur (take n proof) s)
              ∙ ap (climb 0 key cur) (sym (take_snoc proof n e))))
