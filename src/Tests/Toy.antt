-- ===== src/Tests/Toy.antt =====
-- A concrete instance of the cryptographic operations, in which the tests run: the field is the
-- byte strings, the two-element hash is injective, and SHA-256 is a checksum of 32 equal bytes.
use mathlib.Core.List.{flatten}
use sats_usd.Base.{
  ℕ, zero, suc, ◌+◌, ◌-◌, ◌*◌, ◌%◌, ◌<◌, ◌≡◌, refl, sym, ◌∙◌, ap, List, [], ◌∷◌, ◌++◌, Bytes, some,
  arith, length, replicate, bytes_eq, append_cancel,
}
use sats_usd.Crypto.{Crypto, poseidon2, fr_from_be_bytes, fr_to_be_bytes}
use sats_usd.Smt.Complete.{FieldBytes}
use sats_usd.Smt.Sound.{CollisionFree}

abbrev checksum : Bytes → ℕ
checksum [] = 0
checksum (x ∷ xs) = (x + 7 * checksum xs) % 97

abbrev strip : ℕ → Bytes → Bytes → Bytes
strip zero rest all = rest
strip (suc n) [] all = all
strip (suc n) (zero ∷ rest) all = strip n rest all
strip (suc n) (suc x ∷ rest) all = all

abbrev hash_pair : List Bytes → Bytes
hash_pair [] = []
hash_pair (a ∷ []) = 1 ∷ a
hash_pair (a ∷ b ∷ []) = suc (length a) ∷ a ++ b
hash_pair (a ∷ b ∷ c ∷ xs) = flatten (a ∷ b ∷ c ∷ xs)

abbrev scalar : ℕ → Bytes
scalar zero = []
scalar (suc n) = suc n ∷ []

abbrev pub toy : Crypto
toy = record {
  sha2 = λ b. replicate 32 (checksum b);
  Fr = Bytes;
  fr_from = scalar;
  fr_from_be_mod_order = λ b. strip 32 b b;
  fr_to_be = λ x. replicate 32 0 ++ x;
  poseidon = hash_pair;
  EcdsaKey = Bytes;
  EcdsaSignature = Bytes;
  ecdsa_key = λ b. some b;
  ecdsa_signature = λ b. some b;
  ecdsa_verify = λ m s k. bytes_eq s k;
  XOnlyKey = Bytes;
  Scalar = Bytes;
  xonly_from = λ b. some b;
  xonly_serialize = λ b. b;
  scalar_from_be = λ b. some b;
  add_tweak = λ k t. some t;
  BjjPoint = Bytes;
  BjjSignature = Bytes;
  decompress_point = λ b. some b;
  decompress_signature = λ b. some b;
  bjj_verify = λ p s m. bytes_eq s p;
}

strip_short : (n : ℕ) (rest all : Bytes) → length rest < n → strip n rest all ≡ all
strip_short zero rest all h = absurd (omega arith)
strip_short (suc n) [] all h = refl
strip_short (suc n) (zero ∷ rest) all h = strip_short n rest all (omega arith)
strip_short (suc n) (suc x ∷ rest) all h = refl

abbrev padded : ℕ → Bytes → Bytes
padded n x = replicate n 0 ++ (replicate 32 0 ++ x)

from_padded : (n : ℕ) (x : Bytes) → n ≡ 0 → strip 32 (padded n x) (padded n x) ≡ x
from_padded n x e = ap (λ k. strip 32 (padded k x) (padded k x)) e

pub toy_field : FieldBytes toy
unfolding fr_from_be_bytes fr_to_be_bytes
toy_field = record {
  from_to = λ x. from_padded (32 - length (replicate 32 0 ++ x)) x (ground arith);
}

pair_injective :
    (a b x y : Bytes)
    → ◌≡◌ {A = Bytes} (suc (length a) ∷ a ++ b) (suc (length x) ∷ x ++ y)
    → (a ≡ x) × (b ≡ y)
pair_injective a b x y e = append_cancel a x b y (ground arith) (cc)

pub toy_free : CollisionFree toy
unfolding fr_from_be_bytes poseidon2
toy_free = record {
  poseidon2_injective = λ a b x y e. pair_injective a b x y e;
  poseidon2_nonzero = λ a b e. absurd (cc);
  limb_injective = λ a b l s _ _ e.
      sym (strip_short 32 a a (omega arith)) ∙ e ∙ strip_short 32 b b (omega (arith, l));
}
