-- ===== src/Base/Dict.antt =====
-- A `HashMap<[u8; 32], V>` as an association list; no result depends on its order.
use Prim.Native.Nat.{ℕ, ◌+◌}
use mathlib.Core.Path.{◌≡◌, refl, ap}
use mathlib.Core.Logic.{◌≢◌}
use mathlib.Core.List.{List, [], ◌∷◌}
use mathlib.Core.Option.{Option, none, some}
use native.Mathlib.Omega.{arith}
use sats_usd.Base.Tests.{if◌then◌else◌}
use sats_usd.Base.Lists.{Bytes, bytes_eq, bytes_eq→eq, bytes_eq_refl, eq→bytes_eq}

abbrev pub Dict {ℓ} : Type ℓ → Type ℓ
Dict V = List (Bytes × V)

module _ {ℓ} {V : Type ℓ} where
  -- `get`
  unfoldable pub lookup : Bytes → Dict V → Option V
  lookup k [] = none
  lookup k ((j, v) ∷ m) = if bytes_eq j k then some v else lookup k m

  -- `insert`
  unfoldable pub put : Bytes → V → Dict V → Dict V
  put k v [] = (k, v) ∷ []
  put k v ((j, w) ∷ m) = if bytes_eq j k then (k, v) ∷ m else (j, w) ∷ put k v m

  -- `remove`
  unfoldable pub remove : Bytes → Dict V → Dict V
  remove k [] = []
  remove k ((j, w) ∷ m) = if bytes_eq j k then m else (j, w) ∷ remove k m

  pub lookup-put_self : (k : Bytes) (v : V) (m : Dict V) → lookup k (put k v m) ≡ some v
  unfolding lookup put
  lookup-put_self k v [] = ground (arith, bytes_eq_refl k)
  lookup-put_self k v ((j, w) ∷ m) = ground (arith, bytes_eq_refl k, lookup-put_self k v m)

  pub lookup-put_ne : (k j : Bytes) (v : V) (m : Dict V) → k ≢ j → lookup j (put k v m) ≡ lookup j m
  unfolding lookup put
  lookup-put_ne k j v [] h = ground (arith, bytes_eq→eq k j)
  lookup-put_ne k j v ((i, w) ∷ m) h =
      ground (arith, bytes_eq→eq k j, bytes_eq→eq i k, bytes_eq→eq i j, lookup-put_ne k j v m h)

  -- No key stands twice.
  unfoldable pub Unique : Dict V → Type ℓ
  Unique [] = Unit
  Unique ((k, v) ∷ m) = (lookup k m ≡ none) × Unique m

  pub lookup-remove_ne : (k j : Bytes) (m : Dict V) → k ≢ j → lookup j (remove k m) ≡ lookup j m
  unfolding lookup remove
  lookup-remove_ne k j [] h = refl
  lookup-remove_ne k j ((i, w) ∷ m) h =
      ground (arith, bytes_eq→eq k j, bytes_eq→eq i k, bytes_eq→eq i j, lookup-remove_ne k j m h)

  pub lookup-remove_self : (k : Bytes) (m : Dict V) → Unique m → lookup k (remove k m) ≡ none
  unfolding lookup remove Unique
  lookup-remove_self k [] h = refl
  lookup-remove_self k ((i, w) ∷ m) h = ground (arith, bytes_eq→eq i k, lookup-remove_self k m h.1)

  pub put-Unique : (k : Bytes) (v : V) (m : Dict V) → Unique m → Unique (put k v m)
  unfolding lookup put Unique
  put-Unique k v [] h = (refl, tt)
  put-Unique k v ((i, w) ∷ m) h =
      ground (arith, bytes_eq→eq i k, eq→bytes_eq k i, lookup-put_ne k i v m, put-Unique k v m h.1)

  pub remove-Unique : (k : Bytes) (m : Dict V) → Unique m → Unique (remove k m)
  unfolding lookup remove Unique
  remove-Unique k [] h = tt
  remove-Unique k ((i, w) ∷ m) h = ground (
    arith,
    eq→bytes_eq k i,
    eq→bytes_eq i k,
    bytes_eq_refl i,
    lookup-remove_ne k i m,
    remove-Unique k m h.1,
  )

  -- The total weight of the values.
  unfoldable pub total : (V → ℕ) → Dict V → ℕ
  total f [] = 0
  total f ((k, v) ∷ m) = f v + total f m

  pub total-remove :
      (f : V → ℕ) (k : Bytes) {v : V} (m : Dict V)
      → lookup k m ≡ some v
      → total f (remove k m) + f v ≡ total f m
  unfolding total lookup remove
  total-remove f k [] h = absurd (cc)
  total-remove f k {v = v} ((i, w) ∷ m) h =
      ground (arith, total-remove f k {v = v} m, ap f {x = w} {y = v})

  pub total-put :
      (f : V → ℕ) (k : Bytes) {v : V} (u : V) (m : Dict V)
      → lookup k m ≡ some v
      → total f (put k u m) + f v ≡ total f m + f u
  unfolding total lookup put
  total-put f k u [] h = absurd (cc)
  total-put f k {v = v} u ((i, w) ∷ m) h =
      ground (arith, total-put f k {v = v} u m, ap f {x = w} {y = v})

  pub total-put_new :
      (f : V → ℕ) (k : Bytes) (u : V) (m : Dict V)
      → lookup k m ≡ none
      → total f (put k u m) ≡ total f m + f u
  unfolding total lookup put
  total-put_new f k u [] h = omega arith
  total-put_new f k u ((i, w) ∷ m) h = ground (arith, total-put_new f k u m)
