-- ===== src/TaProof/Cursor/Canonical.antt =====
-- A BigSize number as it is written and as it is read.
use mathlib.Core.Path.{subst}
use sats_usd.Base.{
  ℕ, ◌%◌, ◌^◌, ◌<◌, ◌≤◌, ◌≡◌, ◌≢◌, refl, ap, sym, ◌∙◌, [], ◌∷◌, ◌++◌, Bytes, ok, length, take, drop,
  leb, ltb, ◌==◌, true, false, arith, take-append-drop, length-take_le, length-append, Bool-cases,
  inl, inr, bind_ok, came, All-split,
}
use sats_usd.Encoding.{be_bytes, u8, u16, u32, u64}
use sats_usd.Encoding.Injective.{length-be_bytes}
use sats_usd.TaProof.Cursor.{from_be_bytes, cursor_take, cursor_wide, cursor_bigsize, write_bigsize}
use sats_usd.TaProof.Cursor.Numbers.{
  IsBytes, from_be_bytes_lt, be_bytes-from_be_bytes, from_be_bytes-be_bytes,
}

take_all : (xs r : Bytes) → (take (length xs) (xs ++ r) ≡ xs) × (drop (length xs) (xs ++ r) ≡ r)
take_all [] r = (refl, refl)
take_all (x ∷ xs) r = let (p, q) = take_all xs r in (ap (λ t. x ∷ t) p, q)

pub cursor_take-append :
    (n : ℕ) (xs r : Bytes) → length xs ≡ n → cursor_take n (xs ++ r) ≡ ok (xs, r)
unfolding cursor_take
cursor_take-append n xs r e =
    subst (λ k. cursor_take k (xs ++ r) ≡ ok (xs, r)) e
      (let (p, q) = take_all xs r in
        let room : leb (length xs) (length (xs ++ r)) ≡ true = ground (arith, length-append xs r) in
        rw (room, p, q) refl)

pub cursor_take_splits :
    (n : ℕ) (b s r : Bytes) → cursor_take n b ≡ ok (s, r) → (b ≡ s ++ r) × (length s ≡ n)
unfolding cursor_take
cursor_take_splits n b s r e =
    let fits : n ≤ length b = ground arith in
    let front : take n b ≡ s = ground arith in
    let back : drop n b ≡ r = ground arith in
    (
      rw (sym front, sym back) (sym (take-append-drop n b)),
      rw (sym front) (length-take_le b n fits),
    )

cursor_wide-append :
    (n least : ℕ) (xs r : Bytes)
    → length xs ≡ n
    → least ≤ from_be_bytes xs
    → cursor_wide n least (xs ++ r) ≡ ok (from_be_bytes xs, r)
unfolding cursor_wide
cursor_wide-append n least xs r e h = ground (arith, cursor_take-append n xs r e)

written : (s : Bytes) (n v : ℕ) → IsBytes s → length s ≡ n → from_be_bytes s ≡ v → s ≡ be_bytes n v
written s n v front len number =
    sym (be_bytes-from_be_bytes s front)
    ∙ ap (λ k. be_bytes k (from_be_bytes s)) len
    ∙ ap (be_bytes n) number

-- A wide form that is accepted, with the number behind it.
cursor_wide_splits :
    (n least : ℕ) (b r : Bytes) (v : ℕ)
    → IsBytes b
    → cursor_wide n least b ≡ ok (v, r)
    → (b ≡ be_bytes n v ++ r) × (least ≤ v) × (v < 256 ^ n) × IsBytes r
unfolding cursor_wide
cursor_wide_splits n least b r v bytes e = elim (bind_ok (cursor_take n b) _ e) [
  | came (s, rest) t f ↦
      let (whole, len) = cursor_take_splits n b s rest t in
      let (front, back) = All-split _ s rest (subst IsBytes whole bytes) in
      let number : from_be_bytes s ≡ v = ground arith in
      let behind : rest ≡ r = ground arith in
      (
        subst (λ k. b ≡ k ++ r) (written s n v front len number) (whole ∙ ap (λ k. s ++ k) behind),
        ground arith,
        subst (λ k. v < 256 ^ k) len
            (subst (λ k. k < 256 ^ length s) number (from_be_bytes_lt s front)),
        subst IsBytes behind back,
      )
]

narrow_read : (first : ℕ) (r : Bytes) → first < 0xfd → cursor_bigsize (first ∷ r) ≡ ok (first, r)
unfolding cursor_bigsize
narrow_read first r h = ground (arith, cursor_take-append 1 (first ∷ []) r refl)

wide_read :
    (r : Bytes)
    → (cursor_bigsize (0xff ∷ r) ≡ cursor_wide 8 0x1_0000_0000 r)
      × (cursor_bigsize (0xfe ∷ r) ≡ cursor_wide 4 0x1_0000 r)
      × (cursor_bigsize (0xfd ∷ r) ≡ cursor_wide 2 0xfd r)
unfolding cursor_bigsize
wide_read r = (
  ground (arith, cursor_take-append 1 (0xff ∷ []) r refl),
  ground (arith, cursor_take-append 1 (0xfe ∷ []) r refl),
  ground (arith, cursor_take-append 1 (0xfd ∷ []) r refl),
)

wide_written :
    (n least v : ℕ) (r : Bytes)
    → v < 256 ^ n
    → least ≤ v
    → cursor_wide n least (be_bytes n v ++ r) ≡ ok (v, r)
wide_written n least v r h l =
    let back = from_be_bytes-be_bytes n v h in
    cursor_wide-append n least (be_bytes n v) r (length-be_bytes n v) (omega (arith, back, l))
    ∙ ap (λ k. ok (k, r)) back

pub length-write_bigsize : (v : ℕ) → 0 < length (write_bigsize v)
unfolding write_bigsize u8 u16 u32 u64 be_bytes
length-write_bigsize v = ground arith

-- A number that was written is read back, with the bytes behind it.
pub cursor_bigsize-write_bigsize :
    (v : ℕ) (r : Bytes) → v < 2 ^ 64 → cursor_bigsize (write_bigsize v ++ r) ≡ ok (v, r)
unfolding write_bigsize u8 u16 u32 u64
cursor_bigsize-write_bigsize v r h = elim (Bool-cases (ltb v 0xfd)) [
  | inl a ↦ rw a (let e : v % 256 ≡ v = ground arith in rw e (narrow_read v r (ground arith)))
  | inr a ↦ elim (Bool-cases (leb v 0xffff)) [
    | inl b ↦
        rw (a, b)
          ((wide_read (be_bytes 2 v ++ r)).2
            ∙ wide_written 2 0xfd v r (ground arith) (ground arith))
    | inr b ↦ elim (Bool-cases (leb v 0xffff_ffff)) [
      | inl c ↦
          rw (a, b, c)
            ((wide_read (be_bytes 4 v ++ r)).1
              ∙ wide_written 4 0x1_0000 v r (ground arith) (ground arith))
      | inr c ↦
          rw (a, b, c)
            ((wide_read (be_bytes 8 v ++ r)).0
              ∙ wide_written 8 0x1_0000_0000 v r (ground arith) (ground arith))
    ]
  ]
]

written_as :
    (v : ℕ)
    → (v < 0xfd → write_bigsize v ≡ v ∷ [])
      × (0xfd ≤ v → v < 256 ^ 2 → write_bigsize v ≡ 0xfd ∷ be_bytes 2 v)
      × (0x1_0000 ≤ v → v < 256 ^ 4 → write_bigsize v ≡ 0xfe ∷ be_bytes 4 v)
      × (0x1_0000_0000 ≤ v → write_bigsize v ≡ 0xff ∷ be_bytes 8 v)
unfolding write_bigsize u8 u16 u32 u64 be_bytes
written_as v = (
  λ h.
      (let t : ltb v 0xfd ≡ true = ground arith in
        let e : v % 256 ≡ v = ground arith in rw (t, e) refl),
  λ h k.
      let t : ltb v 0xfd ≡ false = ground arith in
      let u : leb v 0xffff ≡ true = ground arith in rw (t, u) refl,
  λ h k.
      let t : ltb v 0xfd ≡ false = ground arith in
      let u : leb v 0xffff ≡ false = ground arith in
      let w : leb v 0xffff_ffff ≡ true = ground arith in rw (t, u, w) refl,
  λ h.
      let t : ltb v 0xfd ≡ false = ground arith in
      let u : leb v 0xffff ≡ false = ground arith in
      let w : leb v 0xffff_ffff ≡ false = ground arith in rw (t, u, w) refl,
)

wide_canonical :
    (n least first : ℕ) (b r : Bytes) (v : ℕ)
    → 256 ^ n ≤ 2 ^ 64
    → (least ≤ v → v < 256 ^ n → write_bigsize v ≡ first ∷ be_bytes n v)
    → IsBytes b
    → cursor_wide n least b ≡ ok (v, r)
    → (◌≡◌ {A = Bytes} (first ∷ b) (write_bigsize v ++ r)) × (v < 2 ^ 64) × IsBytes r
wide_canonical n least first b r v room form bytes e =
    let (whole, low, high, rest) = cursor_wide_splits n least b r v bytes e in
    (
      ap (λ k. first ∷ k) whole ∙ ap (λ k. k ++ r) (sym (form low high)),
      omega (arith, room, high),
      rest,
    )

pub empty_bigsize : (r : Bytes) (v : ℕ) → cursor_bigsize [] ≢ ok (v, r)
unfolding cursor_bigsize cursor_take
empty_bigsize r v e = cc

-- Only the bytes that are written for a number are read as it.
pub cursor_bigsize_canonical :
    (b r : Bytes) (v : ℕ)
    → IsBytes b
    → cursor_bigsize b ≡ ok (v, r)
    → (b ≡ write_bigsize v ++ r) × (v < 2 ^ 64) × IsBytes r
cursor_bigsize_canonical [] r v h e = absurd (empty_bigsize r v e)
cursor_bigsize_canonical (first ∷ b) r v (small, h) e = elim (Bool-cases (first == 0xff)) [
  | inl x ↦
      let same : first ≡ 0xff = ground arith in
      rw same (
        wide_canonical 8 0x1_0000_0000 0xff b r v (omega arith) (λ l k. (written_as v).3 l) h
          (sym (wide_read b).0 ∙ ap (λ k. cursor_bigsize (k ∷ b)) (sym same) ∙ e))
  | inr x ↦ elim (Bool-cases (first == 0xfe)) [
    | inl y ↦
        let same : first ≡ 0xfe = ground arith in
        rw same (
          wide_canonical 4 0x1_0000 0xfe b r v (omega arith) ((written_as v).2) h
            (sym (wide_read b).1 ∙ ap (λ k. cursor_bigsize (k ∷ b)) (sym same) ∙ e))
    | inr y ↦ elim (Bool-cases (first == 0xfd)) [
      | inl z ↦
          let same : first ≡ 0xfd = ground arith in
          rw same (
            wide_canonical 2 0xfd 0xfd b r v (omega arith) ((written_as v).1) h
              (sym (wide_read b).2 ∙ ap (λ k. cursor_bigsize (k ∷ b)) (sym same) ∙ e))
      | inr z ↦
          let n = narrow_read first b (ground arith) in
          let same : first ≡ v = ground arith in
          let behind : b ≡ r = ground arith in
          (
            ap (λ k. first ∷ k) behind
                ∙ ap (λ k. k ∷ r) same
                ∙ ap (λ k. k ++ r) (sym ((written_as v).0 (ground arith))),
            ground arith,
            subst IsBytes behind h,
          )
    ]
  ]
]
