-- ===== src/Registry/Keys.antt =====
-- The loop of ISSUER_REGISTER that finds a repeated key.
use sats_usd.Base.{
  ◌≡◌, refl, List, [], ◌∷◌, Bytes, ok, arith, true, false, contains, ap, bytes_eq→eq, bytes_eq_refl,
  All,
}
use sats_usd.Transition.Signers.{Distinct}
use sats_usd.Registry.{distinct_keys}

distinct_step :
    (pk : Bytes) (pks seen : List Bytes)
    → distinct_keys (pk ∷ pks) seen ≡ ok tt
    → (contains seen pk ≡ false) × (distinct_keys pks (pk ∷ seen) ≡ ok tt)
unfolding distinct_keys
distinct_step pk pks seen h = (ground arith, ground arith)

-- No later key is among those seen.
fresh_of_seen :
    (pks seen : List Bytes) (k : Bytes)
    → distinct_keys pks seen ≡ ok tt
    → contains seen k ≡ true
    → contains pks k ≡ false
fresh_of_seen [] seen k h m = refl
fresh_of_seen (pk ∷ pks) seen k h m =
    let (unseen, rest) = distinct_step pk pks seen h in
    ground (
      arith,
      unseen,
      bytes_eq→eq pk k,
      ap (contains seen),
      fresh_of_seen pks (pk ∷ seen) k rest (ground arith),
    )

pub distinct_keys-Distinct : (pks seen : List Bytes) → distinct_keys pks seen ≡ ok tt → Distinct pks
distinct_keys-Distinct [] seen h = tt
distinct_keys-Distinct (pk ∷ pks) seen h =
    let (_, rest) = distinct_step pk pks seen h in
    (
      fresh_of_seen pks (pk ∷ seen) pk rest (ground (arith, bytes_eq_refl pk)),
      distinct_keys-Distinct pks (pk ∷ seen) rest,
    )

-- None of the keys is among those seen.
abbrev AreUnseen : List Bytes → List Bytes → Type 0
AreUnseen seen pks = All (λ k. contains seen k ≡ false) pks

AreUnseen-nil : (pks : List Bytes) → AreUnseen [] pks
AreUnseen-nil [] = tt
AreUnseen-nil (pk ∷ pks) = (refl, AreUnseen-nil pks)

AreUnseen-cons :
    (pk : Bytes) (pks seen : List Bytes)
    → contains pks pk ≡ false
    → AreUnseen seen pks
    → AreUnseen (pk ∷ seen) pks
AreUnseen-cons pk [] seen absent unseen = tt
AreUnseen-cons pk (k ∷ pks) seen absent (unseen, rest) = (
  ground (arith, absent, unseen, bytes_eq→eq pk k, bytes_eq_refl pk),
  AreUnseen-cons pk pks seen (ground arith) rest,
)

distinct_keys_unseen :
    (pks seen : List Bytes) → Distinct pks → AreUnseen seen pks → distinct_keys pks seen ≡ ok tt
unfolding distinct_keys
distinct_keys_unseen [] seen d u = refl
distinct_keys_unseen (pk ∷ pks) seen (absent, d) (unseen, rest) =
    rw unseen (distinct_keys_unseen pks (pk ∷ seen) d (AreUnseen-cons pk pks seen absent rest))

-- The loop passes over keys that are pairwise distinct.
pub Distinct-distinct_keys : (pks : List Bytes) → Distinct pks → distinct_keys pks [] ≡ ok tt
Distinct-distinct_keys pks d = distinct_keys_unseen pks [] d (AreUnseen-nil pks)
