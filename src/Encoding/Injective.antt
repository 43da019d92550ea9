-- ===== src/Encoding/Injective.antt =====
-- The fields of an encoding, read back. The widths are those of the Rust types.
use sats_usd.Base.{
  ℕ, zero, suc, ◌/◌, ◌%◌, ◌^◌, ◌<◌, ◌≡◌, refl, ap, sym, ◌∙◌, List, [], ◌∷◌, ◌++◌, Bytes, Option,
  none, some, length, length-append, append_cancel, arith, All,
}
use native.Mathlib.Nat.{pow-suc}
use mathlib.Core.List.{append_assoc}
use sats_usd.Encoding.{be_bytes, u8, u16, u32, u64, enum_u8, fixed, var_bytes, opt, seq, seq_items}

pub length-be_bytes : (n v : ℕ) → length (be_bytes n v) ≡ n
unfolding be_bytes
length-be_bytes zero v = refl
length-be_bytes (suc n) v =
    rw (length-append (be_bytes n (v / 256)) (v % 256 ∷ []))
      (omega (arith, length-be_bytes n (v / 256)))

pub be_bytes_bare : (n x y : ℕ) → x < 256 ^ n → y < 256 ^ n → be_bytes n x ≡ be_bytes n y → x ≡ y
unfolding be_bytes
be_bytes_bare zero x y hx hy e = omega arith
be_bytes_bare (suc n) x y hx hy e =
    let (p, q) =
      append_cancel (be_bytes n (x / 256)) (be_bytes n (y / 256)) (x % 256 ∷ []) (y % 256 ∷ [])
        (omega (arith, length-be_bytes n (x / 256), length-be_bytes n (y / 256))) e in
    let ih =
      be_bytes_bare n (x / 256) (y / 256) (omega (arith, pow-suc 256 n))
        (omega (arith, pow-suc 256 n)) p in
    ground (arith, q, ih)

pub be_bytes_inj :
    (n x y : ℕ) (r s : Bytes)
    → x < 256 ^ n
    → y < 256 ^ n
    → be_bytes n x ++ r ≡ be_bytes n y ++ s
    → (x ≡ y) × (r ≡ s)
be_bytes_inj n x y r s hx hy e =
    let (p, q) =
      append_cancel (be_bytes n x) (be_bytes n y) r s
        (omega (arith, length-be_bytes n x, length-be_bytes n y)) e in
    (be_bytes_bare n x y hx hy p, q)

-- What `f` writes in front of any rest can be told from it, among the values in `P`.
abbrev pub Reads {ℓ κ} : {T : Type ℓ} → (T → Bytes) → (T → Type κ) → Type (ℓ ⊔ κ)
Reads {T} f P = (x y : T) (r s : Bytes) → P x → P y → f x ++ r ≡ f y ++ s → (x ≡ y) × (r ≡ s)

pub u8_reads : Reads u8 (λ v. v < 256)
unfolding u8
u8_reads x y r s hx hy e = be_bytes_inj 1 x y r s (omega arith) (omega arith) e

pub enum_u8_reads : Reads enum_u8 (λ v. v < 256)
unfolding enum_u8
enum_u8_reads x y r s hx hy e = u8_reads x y r s hx hy e

pub u16_reads : Reads u16 (λ v. v < 2 ^ 16)
unfolding u16
u16_reads x y r s hx hy e = be_bytes_inj 2 x y r s (omega arith) (omega arith) e

pub u32_reads : Reads u32 (λ v. v < 2 ^ 32)
unfolding u32
u32_reads x y r s hx hy e = be_bytes_inj 4 x y r s (omega arith) (omega arith) e

pub u64_reads : Reads u64 (λ v. v < 2 ^ 64)
unfolding u64
u64_reads x y r s hx hy e = be_bytes_inj 8 x y r s (omega arith) (omega arith) e

pub fixed_reads : (n : ℕ) → Reads fixed (λ b. length b ≡ n)
unfolding fixed
fixed_reads n x y r s hx hy e = append_cancel x y r s (omega arith) e

pub var_bytes_reads : Reads var_bytes (λ b. length b < 2 ^ 32)
unfolding var_bytes
var_bytes_reads x y r s hx hy e =
    let (p, q) =
      u32_reads (length x % 2 ^ 32) (length y % 2 ^ 32) (x ++ r) (y ++ s) (omega arith)
        (omega arith)
        (sym (append_assoc (u32 (length x % 2 ^ 32)) x r)
          ∙ e
          ∙ append_assoc (u32 (length y % 2 ^ 32)) y s) in
    append_cancel x y r s (omega arith) q

module _ {ℓ κ} {T : Type ℓ} (P : T → Type κ) where
  abbrev pub OptFits : Option T → Type κ
  OptFits none = Unit
  OptFits (some x) = P x

  pub opt_reads : (f : T → Bytes) → Reads f P → Reads (λ o. opt o f) OptFits
  unfolding opt u8 be_bytes
  opt_reads f h none none r s hx hy e = (refl, cc)
  opt_reads f h none (some y) r s hx hy e = absurd (cc)
  opt_reads f h (some x) none r s hx hy e = absurd (cc)
  opt_reads f h (some x) (some y) r s hx hy e = let (p, q) = h x y r s hx hy (cc) in (ap some p, q)

  pub seq_items_reads :
      (f : T → Bytes)
      → Reads f P
      → (xs ys : List T) (r s : Bytes) → All P xs
      → All P ys
      → length xs ≡ length ys
      → seq_items xs f ++ r ≡ seq_items ys f ++ s
      → (xs ≡ ys) × (r ≡ s)
  unfolding seq_items
  seq_items_reads f h [] [] r s hx hy l e = (refl, e)
  seq_items_reads f h [] (y ∷ ys) r s hx hy l e = absurd (omega arith)
  seq_items_reads f h (x ∷ xs) [] r s hx hy l e = absurd (omega arith)
  seq_items_reads f h (x ∷ xs) (y ∷ ys) r s hx hy l e =
      let (p, q) =
        h x y (seq_items xs f ++ r) (seq_items ys f ++ s) hx.0 hy.0 (
          sym (append_assoc (f x) (seq_items xs f) r)
          ∙ e
          ∙ append_assoc (f y) (seq_items ys f) s) in
      let (p', q') = seq_items_reads f h xs ys r s hx.1 hy.1 (omega arith) q in (cc, q')

  abbrev pub SeqFits : List T → Type κ
  SeqFits xs = (length xs < 2 ^ 32) × All P xs

  pub seq_reads : (f : T → Bytes) → Reads f P → Reads (λ xs. seq xs f) SeqFits
  unfolding seq
  seq_reads f h xs ys r s hx hy e =
      let (p, q) =
        u32_reads (length xs % 2 ^ 32) (length ys % 2 ^ 32) (seq_items xs f ++ r)
          (seq_items ys f ++ s) (omega arith) (omega arith)
          (sym (append_assoc (u32 (length xs % 2 ^ 32)) (seq_items xs f) r)
            ∙ e
            ∙ append_assoc (u32 (length ys % 2 ^ 32)) (seq_items ys f) s) in
      seq_items_reads f h xs ys r s hx.1 hy.1 (omega arith) q
