-- ===== src/Oracle/Median.antt =====
-- Where the median of the prices stands among them.
use sats_usd.Base.{
  ℕ, zero, suc, ◌+◌, ◌/◌, ◌≤◌, ◌<◌, ◌≡◌, refl, List, [], ◌∷◌, Bool, true, arith, length, get_or,
  ltb, leb, ◌&&◌, Bool-cases, inl, inr, leb→le,
}
use sats_usd.Oracle.{insert_price, sort_prices, count, median_price}

pub count-insert_price :
    (p : ℕ → Bool) (a : ℕ) (xs : List ℕ) → count p (insert_price a xs) ≡ count p (a ∷ xs)
unfolding count insert_price
count-insert_price p a [] = refl
count-insert_price p a (x ∷ xs) = ground (arith, count-insert_price p a xs)

-- Sorting keeps every count.
pub count-sort_prices : (p : ℕ → Bool) (xs : List ℕ) → count p (sort_prices xs) ≡ count p xs
unfolding count sort_prices
count-sort_prices p [] = refl
count-sort_prices p (x ∷ xs) =
    ground (arith, count-insert_price p x (sort_prices xs), count-sort_prices p xs)

length-insert_price : (a : ℕ) (xs : List ℕ) → length (insert_price a xs) ≡ suc (length xs)
unfolding insert_price
length-insert_price a [] = refl
length-insert_price a (x ∷ xs) = ground (arith, length-insert_price a xs)

pub length-sort_prices : (xs : List ℕ) → length (sort_prices xs) ≡ length xs
unfolding sort_prices
length-sort_prices [] = refl
length-sort_prices (x ∷ xs) =
    ground (arith, length-insert_price x (sort_prices xs), length-sort_prices xs)

-- Every price is at least `a`.
abbrev Above : ℕ → List ℕ → Type 0
Above a [] = Unit
Above a (x ∷ xs) = (a ≤ x) × Above a xs

abbrev Sorted : List ℕ → Type 0
Sorted [] = Unit
Sorted (x ∷ xs) = Above x xs × Sorted xs

Above-le : (a b : ℕ) (xs : List ℕ) → a ≤ b → Above b xs → Above a xs
Above-le a b [] l h = tt
Above-le a b (x ∷ xs) l (h, k) = (omega (arith, l, h), Above-le a b xs l k)

Above-insert : (a b : ℕ) (xs : List ℕ) → a ≤ b → Above a xs → Above a (insert_price b xs)
unfolding insert_price
Above-insert a b [] l h = (l, tt)
Above-insert a b (x ∷ xs) l (h, k) = ground (arith, Above-insert a b xs l k)

Sorted-insert : (a : ℕ) (xs : List ℕ) → Sorted xs → Sorted (insert_price a xs)
unfolding insert_price
Sorted-insert a [] h = (tt, tt)
Sorted-insert a (x ∷ xs) (h, k) =
    ground (arith, Above-insert x a xs, Above-le a x xs, Sorted-insert a xs k)

sort_prices-Sorted : (xs : List ℕ) → Sorted (sort_prices xs)
unfolding sort_prices
sort_prices-Sorted [] = tt
sort_prices-Sorted (x ∷ xs) = Sorted-insert x (sort_prices xs) (sort_prices-Sorted xs)

count-Above : (a b : ℕ) (xs : List ℕ) → b ≤ a → Above a xs → count (λ x. ltb x b) xs ≡ 0
unfolding count
count-Above a b [] l h = refl
count-Above a b (x ∷ xs) l (h, k) = ground (arith, count-Above a b xs l k)

count_le_length : (p : ℕ → Bool) (xs : List ℕ) → count p xs ≤ length xs
unfolding count
count_le_length p [] = omega arith
count_le_length p (x ∷ xs) = ground (arith, count_le_length p xs)

Above-get_or : (a : ℕ) (xs : List ℕ) (i : ℕ) → i < length xs → Above a xs → a ≤ get_or xs i 0
Above-get_or a [] i l h = absurd (omega arith)
Above-get_or a (x ∷ xs) zero l (h, k) = h
Above-get_or a (x ∷ xs) (suc i) l (h, k) = Above-get_or a xs i (omega arith) k

-- In a sorted list at most `i` elements are below the one at `i`.
count_below :
    (xs : List ℕ) (i : ℕ) → Sorted xs → i < length xs → count (λ x. ltb x (get_or xs i 0)) xs ≤ i
unfolding count
count_below [] i s l = absurd (omega arith)
count_below (x ∷ xs) zero (a, s) l = ground (arith, count-Above x x xs)
count_below (x ∷ xs) (suc i) (a, s) l = ground (arith, count_below xs i s (omega arith))

-- And at most as many are above it as stand after it.
count_above :
    (xs : List ℕ) (i : ℕ)
    → Sorted xs
    → i < length xs
    → count (λ x. ltb (get_or xs i 0) x) xs + i < length xs
unfolding count
count_above [] i s l = absurd (omega arith)
count_above (x ∷ xs) zero (a, s) l = ground (arith, count_le_length (λ y. ltb x y) xs)
count_above (x ∷ xs) (suc i) (a, s) l =
    ground (arith, count_above xs i s (omega arith), Above-get_or x xs i (omega arith) a)

-- At most half of the prices are below the median, and fewer than half, rounded up, above.
pub median_price-middle :
    (prices : List ℕ)
    → 0 < length prices
    → (count (λ x. ltb x (median_price prices)) prices ≤ length prices / 2)
      × (count (λ x. ltb (median_price prices) x) prices + length prices / 2 < length prices)
unfolding median_price
median_price-middle prices pos =
    let sorted = sort_prices prices in
    let i = length sorted / 2 in
    let e = length-sort_prices prices in
    let below = count_below sorted i (sort_prices-Sorted prices) (omega (arith, e)) in
    let above = count_above sorted i (sort_prices-Sorted prices) (omega (arith, e)) in
    (
      omega (arith, e, below, count-sort_prices (λ x. ltb x (get_or sorted i 0)) prices),
      omega (arith, e, above, count-sort_prices (λ x. ltb (get_or sorted i 0) x) prices),
    )

count_le :
    (p q : ℕ → Bool) → ((x : ℕ) → p x ≡ true → q x ≡ true) → (xs : List ℕ) → count p xs ≤ count q xs
unfolding count
count_le p q h [] = omega arith
count_le p q h (x ∷ xs) = ground (arith, h x, count_le p q h xs)

abbrev pub within : ℕ → ℕ → ℕ → Bool
within lo hi x = leb lo x && leb x hi

-- A band that holds more than half of the prices holds their median.
pub median_price-within :
    (lo hi : ℕ) (prices : List ℕ)
    → length prices < count (within lo hi) prices + count (within lo hi) prices
    → (lo ≤ median_price prices) × (median_price prices ≤ hi)
median_price-within lo hi prices majority =
    let m = median_price prices in
    let pos : 0 < length prices = omega (arith, majority, count_le_length (within lo hi) prices) in
    let (below, above) = median_price-middle prices pos in
    (
      elim (Bool-cases (leb lo m)) [
        | inl e ↦ leb→le lo m e
        | inr e ↦
            let more = count_le (within lo hi) (λ x. ltb m x) (λ x h. ground arith) prices in
            absurd (omega (arith, majority, above, more))
      ],
      elim (Bool-cases (leb m hi)) [
        | inl e ↦ leb→le m hi e
        | inr e ↦
            let more = count_le (within lo hi) (λ x. ltb x m) (λ x h. ground arith) prices in
            absurd (omega (arith, majority, below, more))
      ],
    )
