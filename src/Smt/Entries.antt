-- ===== src/Smt/Entries.antt =====
-- How the entries of a tree divide at a level, and how an insertion goes through the division.
use mathlib.Core.Path.{subst}
use native.Mathlib.Decide.{ℕ_discrete}
use sats_usd.Base.{
  ℕ, suc, ◌+◌, ◌≤◌, ◌<◌, ◌≡◌, ◌≢◌, refl, sym, ◌∙◌, ap, [], ◌∷◌, Bytes, Option, some, none, true,
  false, Bool-cases, bytes_eq_refl, inl, inr, ◌⊎◌, All, arith, bytes_eq, bytes_eq→eq,
}
use sats_usd.Crypto.{Crypto}
use sats_usd.Smt.{bit, Entries, insert_leaf, lookup_leaf, side}

-- Among the entries only the key itself follows the path of `key` below `depth`.
abbrev pub Follows : ℕ → ℕ → Bytes → Bytes → Type 0
Follows rest depth key j = (i : ℕ) → depth ≤ i → i < depth + rest → bit j i ≡ bit key i

module _ ⦃c : Crypto⦄ where
  abbrev pub Separates : ℕ → ℕ → Bytes → Entries → Type 0
  Separates rest depth key es =
      All (λ (e : Bytes × c.Fr). Follows rest depth key e.0 → e.0 ≡ key) es

  -- The leaf at a key: zero where the tree has none.
  abbrev pub leaf_or_zero : Option c.Fr → c.Fr
  leaf_or_zero none = c.fr_from 0
  leaf_or_zero (some v) = v

  abbrev pub leaf_at : Bytes → Entries → c.Fr
  leaf_at key es = leaf_or_zero (lookup_leaf key es)

  pub bit_cases : (key : Bytes) (d : ℕ) → (bit key d ≡ 0) ⊎ (bit key d ≡ 1)
  unfolding bit
  bit_cases key d = omega arith

  side_head :
      (d : ℕ) (key j : Bytes) (w : c.Fr) (es : Entries)
      → bit j d ≡ bit key d
      → side (bit key d) d ((j, w) ∷ es) ≡ (j, w) ∷ side (bit key d) d es
  unfolding side
  side_head d key j w es e = ground arith

  side_skip :
      (b d : ℕ) (j : Bytes) (w : c.Fr) (es : Entries)
      → bit j d ≢ b
      → side b d ((j, w) ∷ es) ≡ side b d es
  unfolding side
  side_skip b d j w es e = ground arith

  -- The path's own side keeps what the path's key needs.
  pub side-Separates :
      (rest d : ℕ) (key : Bytes) (es : Entries)
      → Separates (suc rest) d key es
      → Separates rest (d + 1) key (side (bit key d) d es)
  unfolding side
  side-Separates rest d key [] h = tt
  side-Separates rest d key ((j, w) ∷ es) h = elim (ℕ_discrete (bit j d) (bit key d)) [
    | yes e ↦ subst (Separates rest (d + 1) key) (sym (side_head d key j w es e)) (
      (λ f. h.0 (λ i lo hi. elim (ℕ_discrete i d) [
        | yes same ↦ rw same e
        | no other ↦ f i (omega arith) (omega arith)
      ])),
      side-Separates rest d key es h.1,
    )
    | no n ↦
        subst (Separates rest (d + 1) key) (sym (side_skip (bit key d) d j w es n))
          (side-Separates rest d key es h.1)
  ]

  pub insert-Separates :
      (rest d : ℕ) (key : Bytes) (v : c.Fr) (es : Entries)
      → Separates rest d key es
      → Separates rest d key (insert_leaf key v es)
  unfolding insert_leaf
  insert-Separates rest d key v [] h = ((λ _. refl), tt)
  insert-Separates rest d key v ((j, w) ∷ es) h = elim (Bool-cases (bytes_eq j key)) [
    | inl e ↦ rw e ((λ _. refl), h.1)
    | inr n ↦ rw n (h.0, insert-Separates rest d key v es h.1)
  ]

  pub lookup-side :
      (d : ℕ) (key : Bytes) (es : Entries)
      → lookup_leaf key (side (bit key d) d es) ≡ lookup_leaf key es
  unfolding side lookup_leaf
  lookup-side d key [] = refl
  lookup-side d key ((j, w) ∷ es) =
      ground (arith, lookup-side d key es, bytes_eq→eq j key, ap (λ (k : Bytes). bit k d))

  pub lookup-insert :
      (key : Bytes) (v : c.Fr) (es : Entries) → lookup_leaf key (insert_leaf key v es) ≡ some v
  unfolding lookup_leaf insert_leaf
  lookup-insert key v [] = rw (bytes_eq_refl key)
  lookup-insert key v ((j, w) ∷ es) = elim (Bool-cases (bytes_eq j key)) [
    | inl e ↦ rw e (rw (bytes_eq_refl key))
    | inr n ↦ rw n (rw n (lookup-insert key v es))
  ]

  insert_same :
      (key j : Bytes) (v w : c.Fr) (es : Entries)
      → bytes_eq j key ≡ true
      → insert_leaf key v ((j, w) ∷ es) ≡ (key, v) ∷ es
  unfolding insert_leaf
  insert_same key j v w es e = ground arith

  insert_other :
      (key j : Bytes) (v w : c.Fr) (es : Entries)
      → bytes_eq j key ≡ false
      → insert_leaf key v ((j, w) ∷ es) ≡ (j, w) ∷ insert_leaf key v es
  unfolding insert_leaf
  insert_other key j v w es e = ground arith

  pub insert-side_same :
      (d : ℕ) (key : Bytes) (v : c.Fr) (es : Entries)
      → side (bit key d) d (insert_leaf key v es) ≡ insert_leaf key v (side (bit key d) d es)
  unfolding side insert_leaf
  insert-side_same d key v [] = ground arith
  insert-side_same d key v ((j, w) ∷ es) = elim (Bool-cases (bytes_eq j key)) [
    | inl e ↦
        let same : bit j d ≡ bit key d = ap (λ k. bit k d) (bytes_eq→eq j key e) in
        rw (insert_same key j v w es e, side_head d key key v es refl, side_head d key j w es same)
          (sym (insert_same key j v w (side (bit key d) d es) e))
    | inr n ↦ elim (ℕ_discrete (bit j d) (bit key d)) [
      | yes b ↦
          rw
            (
              insert_other key j v w es n,
              side_head d key j w (insert_leaf key v es) b,
              side_head d key j w es b,
              insert_other key j v w (side (bit key d) d es) n,
            )
            (ap (λ t. (j, w) ∷ t) (insert-side_same d key v es))
      | no b ↦
          rw
            (
              insert_other key j v w es n,
              side_skip (bit key d) d j w (insert_leaf key v es) b,
              side_skip (bit key d) d j w es b,
            )
            (insert-side_same d key v es)
    ]
  ]

  pub insert-side_other :
      (b d : ℕ) (key : Bytes) (v : c.Fr) (es : Entries)
      → bit key d ≢ b
      → side b d (insert_leaf key v es) ≡ side b d es
  unfolding side insert_leaf
  insert-side_other b d key v [] h = ground arith
  insert-side_other b d key v ((j, w) ∷ es) h = elim (Bool-cases (bytes_eq j key)) [
    | inl e ↦
        let other : bit j d ≢ b = λ q. h (ap (λ k. bit k d) (sym (bytes_eq→eq j key e)) ∙ q) in
        rw (insert_same key j v w es e, side_skip b d key v es h, side_skip b d j w es other) refl
    | inr n ↦ rw (insert_other key j v w es n) (ground (arith, insert-side_other b d key v es h))
  ]

  -- The same, with the side of the path named by its bit.
  pub insert-side_at :
      (b d : ℕ) (key : Bytes) (v : c.Fr) (es : Entries)
      → bit key d ≡ b
      → side b d (insert_leaf key v es) ≡ insert_leaf key v (side b d es)
  insert-side_at b d key v es e =
      subst (λ n. side n d (insert_leaf key v es) ≡ insert_leaf key v (side n d es)) e
        (insert-side_same d key v es)

  pub side-Separates_at :
      (b rest d : ℕ) (key : Bytes) (es : Entries)
      → bit key d ≡ b
      → Separates (suc rest) d key es
      → Separates rest (d + 1) key (side b d es)
  side-Separates_at b rest d key es e h =
      subst (λ n. Separates rest (d + 1) key (side n d es)) e (side-Separates rest d key es h)

  pub leaf-side_at :
      (b d : ℕ) (key : Bytes) (es : Entries)
      → bit key d ≡ b
      → leaf_at key (side b d es) ≡ leaf_at key es
  leaf-side_at b d key es e =
      subst (λ n. leaf_at key (side n d es) ≡ leaf_at key es) e
        (ap leaf_or_zero (lookup-side d key es))
