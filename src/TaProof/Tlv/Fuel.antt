-- ===== src/TaProof/Tlv/Fuel.antt =====
-- The fuel of the TLV loop.
use mathlib.Core.Path.{subst}
use sats_usd.Base.{
  ℕ, zero, suc, ◌<◌, ◌≤◌, ◌≡◌, refl, [], ◌∷◌, Bytes, Option, some, ok, ◌>>=◌, bind_ext, length,
  arith, All-split, length-append, ap,
}
use sats_usd.TaProof.Cursor.{cursor_take, cursor_bigsize, write_bigsize}
use sats_usd.TaProof.Cursor.Numbers.{IsBytes}
use sats_usd.TaProof.Cursor.Canonical.{
  cursor_take_splits, cursor_bigsize_canonical, length-write_bigsize,
}
use sats_usd.TaProof.Tlv.{ascends, tlv_records}

-- What stands behind a number is bytes, and shorter.
behind_bigsize :
    (b r : Bytes) (v : ℕ)
    → IsBytes b
    → cursor_bigsize b ≡ ok (v, r)
    → IsBytes r × (length r < length b)
behind_bigsize b r v h e =
    let (whole, _, rest) = cursor_bigsize_canonical b r v h e in
    (
      rest,
      omega (arith, ap length whole, length-append (write_bigsize v) r, length-write_bigsize v),
    )

behind_take :
    (n : ℕ) (b s r : Bytes)
    → IsBytes b
    → cursor_take n b ≡ ok (s, r)
    → IsBytes r × (length r ≤ length b)
behind_take n b s r h e =
    let (whole, _) = cursor_take_splits n b s r e in
    let (_, rest) = All-split _ s r (subst IsBytes whole h) in
    (rest, omega (arith, ap length whole, length-append s r))

-- The loop that reads the records of a stream gives the same result under any two fuels that are
-- the number of bytes or more: it never stops for want of fuel.
pub tlv_records_fuel :
    (f g : ℕ) (b : Bytes) (last : Option ℕ)
    → IsBytes b
    → length b ≤ f
    → length b ≤ g
    → tlv_records f b last ≡ tlv_records g b last
unfolding tlv_records
tlv_records_fuel f g [] last h k l = refl
tlv_records_fuel zero g (x ∷ b) last h k l = absurd (omega arith)
tlv_records_fuel (suc f) zero (x ∷ b) last h k l = absurd (omega arith)
tlv_records_fuel (suc f) (suc g) (x ∷ b) last h k l =
    bind_ext (cursor_bigsize (x ∷ b)) _ _ (λ (ty, rest) t. bind_ext (ascends last ty) _ _ (λ u a.
      bind_ext (cursor_bigsize rest) _ _ (λ (len, rest') m.
        bind_ext (cursor_take len rest') _ _ (λ (v, left) c.
          let (h1, s1) = behind_bigsize (x ∷ b) rest ty h t in
          let (h2, s2) = behind_bigsize rest rest' len h1 m in
          let (h3, s3) = behind_take len rest' v left h2 c in
          ap (λ o. o >>= (λ records. ok ((ty, v) ∷ records)))
            (tlv_records_fuel f g left (some ty) h3 (omega (arith, s1, s2, s3))
              (omega (arith, s1, s2, s3)))))))
