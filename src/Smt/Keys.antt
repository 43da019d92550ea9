-- ===== src/Smt/Keys.antt =====
-- Keys of 32 bytes by their 256 bits.
use sats_usd.Base.{
  ℕ, zero, suc, ◌+◌, ◌-◌, ◌*◌, ◌/◌, ◌%◌, ◌^◌, ◌<◌, ◌≡◌, refl, sym, ◌∙◌, ap, [], ◌∷◌, Bytes, length,
  get_or, All, arith, Bool-cases, bytes_eq, inl, inr,
}
use sats_usd.Crypto.{Crypto}
use sats_usd.Smt.{bit, height, Entries, insert_leaf}
use sats_usd.Smt.Entries.{Separates}

-- A `[u8; 32]`.
abbrev pub IsKey : Bytes → Type 0
IsKey key = (length key ≡ 32) × All (λ b. b < 256) key

bit_at : (key : Bytes) (q r : ℕ) → r < 8 → bit key (8 * q + r) ≡ get_or key q 0 / 2 ^ (7 - r) % 2
unfolding bit
bit_at key q r h =
    let byte : (8 * q + r) / 8 ≡ q = omega arith in
    let off : (8 * q + r) % 8 ≡ r = omega arith in
    ap (λ n. get_or key n 0 / 2 ^ (7 - (8 * q + r) % 8) % 2) byte
    ∙ ap (λ n. get_or key q 0 / 2 ^ (7 - n) % 2) off

byte_lt : (key : Bytes) (q : ℕ) → All (λ b. b < 256) key → get_or key q 0 < 256
byte_lt [] q h = omega arith
byte_lt (b ∷ key) zero h = h.0
byte_lt (b ∷ key) (suc q) h = byte_lt key q h.1

-- Eight bits make a byte.
byte_of_bits :
    (x y : ℕ)
    → x < 256
    → y < 256
    → x / 128 % 2 ≡ y / 128 % 2
    → x / 64 % 2 ≡ y / 64 % 2
    → x / 32 % 2 ≡ y / 32 % 2
    → x / 16 % 2 ≡ y / 16 % 2
    → x / 8 % 2 ≡ y / 8 % 2
    → x / 4 % 2 ≡ y / 4 % 2
    → x / 2 % 2 ≡ y / 2 % 2
    → x / 1 % 2 ≡ y / 1 % 2
    → x ≡ y
byte_of_bits x y hx hy b7 b6 b5 b4 b3 b2 b1 b0 = omega arith

same_byte :
    (j key : Bytes) (q : ℕ)
    → IsKey j
    → IsKey key
    → q < 32
    → ((i : ℕ) → i < 256 → bit j i ≡ bit key i)
    → get_or j q 0 ≡ get_or key q 0
same_byte j key q hj hk hq f =
    byte_of_bits (get_or j q 0) (get_or key q 0) (byte_lt j q hj.1) (byte_lt key q hk.1)
      (at 0 (omega arith)) (at 1 (omega arith)) (at 2 (omega arith)) (at 3 (omega arith))
      (at 4 (omega arith)) (at 5 (omega arith)) (at 6 (omega arith)) (at 7 (omega arith))
  where
    at : (r : ℕ) → r < 8 → get_or j q 0 / 2 ^ (7 - r) % 2 ≡ get_or key q 0 / 2 ^ (7 - r) % 2
    at r h = sym (bit_at j q r h) ∙ f (8 * q + r) (omega arith) ∙ bit_at key q r h

list_ext :
    (xs ys : Bytes)
    → length xs ≡ length ys
    → ((q : ℕ) → q < length xs → get_or xs q 0 ≡ get_or ys q 0)
    → xs ≡ ys
list_ext [] [] l f = refl
list_ext [] (y ∷ ys) l f = absurd (omega arith)
list_ext (x ∷ xs) [] l f = absurd (omega arith)
list_ext (x ∷ xs) (y ∷ ys) l f =
    let tails : xs ≡ ys = list_ext xs ys (omega arith) (λ q h. f (suc q) (omega arith)) in
    let heads : x ≡ y = f 0 (omega arith) in cc

pub key_of_bits :
    (j key : Bytes) → IsKey j → IsKey key → ((i : ℕ) → i < 256 → bit j i ≡ bit key i) → j ≡ key
key_of_bits j key hj hk f =
    list_ext j key (omega arith) (λ q h. same_byte j key q hj hk (omega arith) f)

module _ ⦃c : Crypto⦄ where
  -- A tree of 32-byte keys.
  abbrev pub IsTree : Entries → Type 0
  IsTree es = All (λ (e : Bytes × c.Fr). IsKey e.0) es

  pub IsTree-Separates :
      (key : Bytes) (es : Entries) → IsKey key → IsTree es → Separates height 0 key es
  IsTree-Separates key [] hk h = tt
  IsTree-Separates key (e ∷ es) hk h = (
    (λ f. key_of_bits e.0 key h.0 hk (λ i l. f i (omega arith) (omega arith))),
    IsTree-Separates key es hk h.1,
  )

  pub insert_leaf-IsTree :
      (key : Bytes) (v : c.Fr) (es : Entries)
      → IsKey key
      → IsTree es
      → IsTree (insert_leaf key v es)
  unfolding insert_leaf
  insert_leaf-IsTree key v [] hk h = (hk, tt)
  insert_leaf-IsTree key v ((j, w) ∷ es) hk h = elim (Bool-cases (bytes_eq j key)) [
    | inl e ↦ rw e (hk, h.1)
    | inr n ↦ rw n (h.0, insert_leaf-IsTree key v es hk h.1)
  ]
