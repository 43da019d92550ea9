-- ===== src/Derive/Order.antt =====
-- `sort_unstable` of a list of byte strings, by the lexicographic order of `[u8; N]`.
use sats_usd.Base.{List, [], ◌∷◌, Bytes, Bool, true, false, ltb, ◌==◌, ◌&&◌, ◌||◌, if◌then◌else◌}

-- a ≤ b on byte strings.
unfoldable pub bytes_leb : Bytes → Bytes → Bool
bytes_leb [] b = true
bytes_leb (x ∷ a) [] = false
bytes_leb (x ∷ a) (y ∷ b) = ltb x y || (x == y && bytes_leb a b)

unfoldable pub insert_sorted : Bytes → List Bytes → List Bytes
insert_sorted a [] = a ∷ []
insert_sorted a (b ∷ bs) = if bytes_leb a b then a ∷ b ∷ bs else b ∷ insert_sorted a bs

unfoldable pub sort_unstable : List Bytes → List Bytes
unfolding bytes_leb insert_sorted
sort_unstable [] = []
sort_unstable (a ∷ as_) = insert_sorted a (sort_unstable as_)
