-- ===== src/TaProof/Cursor/Numbers.antt =====
-- Big-endian numbers, written and read.
use native.Mathlib.Nat.{pow-suc, mul-le-mul_right}
use mathlib.Core.Path.{subst}
use sats_usd.Base.{
  ℕ, zero, suc, ◌+◌, ◌*◌, ◌/◌, ◌%◌, ◌^◌, ◌<◌, ◌≤◌, ◌≡◌, refl, ap, ◌∙◌, [], ◌∷◌, ◌++◌, Bytes, length,
  All, All-append, arith,
}
use sats_usd.Encoding.{be_bytes}
use sats_usd.Encoding.Injective.{length-be_bytes, be_bytes_bare}
use sats_usd.TaProof.Cursor.{from_be_bytes}

abbrev pub IsBytes : Bytes → Type 0
IsBytes bs = All (λ b. b < 256) bs

byte_above : (n b v : ℕ) → (b * 256 ^ suc n + v) / 256 ≡ b * 256 ^ n + v / 256
byte_above n b v =
    let top : b * 256 ^ suc n ≡ b * 256 ^ n * 256 =
      grind (arith, ap (λ p. b * p) (pow-suc 256 n)) in
    omega (arith, top)

byte_below : (n b v : ℕ) → (b * 256 ^ suc n + v) % 256 ≡ v % 256
byte_below n b v =
    let top : b * 256 ^ suc n ≡ b * 256 ^ n * 256 =
      grind (arith, ap (λ p. b * p) (pow-suc 256 n)) in
    omega (arith, top)

be_bytes_cons :
    (n b v : ℕ) → b < 256 → v < 256 ^ n → be_bytes (suc n) (b * 256 ^ n + v) ≡ b ∷ be_bytes n v
unfolding be_bytes
be_bytes_cons zero b v hb hv = ap (λ x. x ∷ []) (omega arith)
be_bytes_cons (suc n) b v hb hv =
    ap (λ x. be_bytes (suc n) x ++ ((b * 256 ^ suc n + v) % 256 ∷ [])) (byte_above n b v)
    ∙ ap (λ x. be_bytes (suc n) (b * 256 ^ n + v / 256) ++ (x ∷ [])) (byte_below n b v)
    ∙ ap (λ bs. bs ++ (v % 256 ∷ []))
        (be_bytes_cons n b (v / 256) hb (omega (arith, pow-suc 256 n)))

pub from_be_bytes_lt : (bs : Bytes) → IsBytes bs → from_be_bytes bs < 256 ^ length bs
unfolding from_be_bytes
from_be_bytes_lt [] h = omega arith
from_be_bytes_lt (b ∷ bs) (h, k) =
    let room : b * 256 ^ length bs ≤ 255 * 256 ^ length bs =
      mul-le-mul_right (256 ^ length bs) (omega arith) in
    omega (arith, room, from_be_bytes_lt bs k, pow-suc 256 (length bs))

-- The bytes of a number that was read are those it was read from.
pub be_bytes-from_be_bytes :
    (bs : Bytes) → IsBytes bs → be_bytes (length bs) (from_be_bytes bs) ≡ bs
unfolding from_be_bytes be_bytes
be_bytes-from_be_bytes [] h = refl
be_bytes-from_be_bytes (b ∷ bs) (h, k) =
    be_bytes_cons (length bs) b (from_be_bytes bs) h (from_be_bytes_lt bs k)
    ∙ ap (λ cs. b ∷ cs) (be_bytes-from_be_bytes bs k)

pub be_bytes-IsBytes : (n v : ℕ) → IsBytes (be_bytes n v)
unfolding be_bytes
be_bytes-IsBytes zero v = tt
be_bytes-IsBytes (suc n) v =
    All-append _ (be_bytes n (v / 256)) (v % 256 ∷ []) (be_bytes-IsBytes n (v / 256))
      (omega arith, tt)

-- A number that fits is read back from its bytes.
pub from_be_bytes-be_bytes : (n v : ℕ) → v < 256 ^ n → from_be_bytes (be_bytes n v) ≡ v
from_be_bytes-be_bytes n v h =
    let bs = be_bytes n v in
    let len = length-be_bytes n v in
    let small : from_be_bytes bs < 256 ^ n =
      subst (λ k. from_be_bytes bs < 256 ^ k) len (from_be_bytes_lt bs (be_bytes-IsBytes n v)) in
    let same : be_bytes n (from_be_bytes bs) ≡ bs =
      subst (λ k. be_bytes k (from_be_bytes bs) ≡ bs) len
        (be_bytes-from_be_bytes bs (be_bytes-IsBytes n v)) in
    be_bytes_bare n (from_be_bytes bs) v small h same
