-- ===== src/TaProof/Tlv/RoundTrip.antt =====
-- A TLV stream, a proof and a proof file as they are written and as they are read.
use mathlib.Core.Path.{subst}
use sats_usd.Base.{
  ℕ, zero, suc, ◌^◌, ◌<◌, ◌≤◌, ◌≡◌, refl, ap, sym, ◌∙◌, [], ◌∷◌, ◌++◌, Bytes, Option, none, some,
  ok, ensure, bind_ok, came, length, take, drop, bytes_eq, bytes_eq→eq, ltb, not, false, All-split,
  All-drop, arith, length-append, take-append-drop,
}
use sats_usd.TaProof.Cursor.{truncated, bad_proof_magic, cursor_take, cursor_bigsize, write_bigsize}
use sats_usd.TaProof.Cursor.Numbers.{IsBytes}
use sats_usd.TaProof.Cursor.Canonical.{
  empty_bigsize, length-write_bigsize, cursor_take-append, cursor_take_splits,
  cursor_bigsize-write_bigsize, cursor_bigsize_canonical,
}
use sats_usd.TaProof.Tlv.{
  Records, ascends, tlv_records, parse_tlv, encode_records, Proof, parse_proof, reencode,
  proof_magic,
}

-- Strictly ascending types above `last`, each below 2^64.
abbrev pub Ascending : Option ℕ → Records → Type 0
Ascending last [] = Unit
Ascending last ((ty, v) ∷ records) =
    (ascends last ty ≡ ok tt) × (ty < 2 ^ 64) × (length v < 2 ^ 64) × Ascending (some ty) records

-- Only the bytes that are written for records are read as them.
tlv_records_canonical :
    (f : ℕ) (b : Bytes) (last : Option ℕ) (records : Records)
    → IsBytes b
    → tlv_records f b last ≡ ok records
    → (encode_records records ≡ b) × Ascending last records
unfolding tlv_records encode_records
tlv_records_canonical f [] last [] h e = (refl, tt)
tlv_records_canonical f [] last (r ∷ records) h e = absurd (cc)
tlv_records_canonical zero (x ∷ b) last records h e = absurd (cc)
tlv_records_canonical (suc f) (x ∷ b) last records h e =
    elim (bind_ok (cursor_bigsize (x ∷ b)) _ e) [
      | came (ty, rest) t e1 ↦ elim (bind_ok (ascends last ty) _ e1) [
        | came u a e2 ↦ elim (bind_ok (cursor_bigsize rest) _ e2) [
          | came (len, rest') l e3 ↦ elim (bind_ok (cursor_take len rest') _ e3) [
            | came (v, left) c e4 ↦ elim (bind_ok (tlv_records f left (some ty)) _ e4) [
              | came records' r e5 ↦
                  let (b1, ty_fits, h1) = cursor_bigsize_canonical (x ∷ b) rest ty h t in
                  let (b2, len_fits, h2) = cursor_bigsize_canonical rest rest' len h1 l in
                  let (b3, len_v) = cursor_take_splits len rest' v left c in
                  let (_, h3) = All-split _ v left (subst IsBytes b3 h2) in
                  let (b4, asc) = tlv_records_canonical f left (some ty) records' h3 r in
                  let same : (ty, v) ∷ records' ≡ records = ground arith in
                  (
                    ap encode_records (sym same)
                        ∙ ap (λ k. write_bigsize ty ++ (write_bigsize (length v) ++ (v ++ k))) b4
                        ∙ ap (λ k. write_bigsize ty ++ (write_bigsize k ++ (v ++ left))) len_v
                        ∙ ap (λ k. write_bigsize ty ++ (write_bigsize len ++ k)) (sym b3)
                        ∙ ap (λ k. write_bigsize ty ++ k) (sym b2)
                        ∙ sym b1,
                    subst (λ k. Ascending last k) same
                        (a, ty_fits, omega (arith, len_fits, len_v), asc),
                  )
            ]
          ]
        ]
      ]
    ]

round :
    (f : ℕ) (b rest rest' v left : Bytes) (last : Option ℕ) (ty len : ℕ) (records : Records)
    → cursor_bigsize b ≡ ok (ty, rest)
    → ascends last ty ≡ ok tt
    → cursor_bigsize rest ≡ ok (len, rest')
    → cursor_take len rest' ≡ ok (v, left)
    → tlv_records f left (some ty) ≡ ok records
    → tlv_records (suc f) b last ≡ ok ((ty, v) ∷ records)
unfolding tlv_records
round f [] rest rest' v left last ty len records t a l c r = absurd (empty_bigsize rest ty t)
round f (x ∷ b) rest rest' v left last ty len records t a l c r = rw (t, a, l, c, r) refl

tlv_records-encode_records :
    (f : ℕ) (last : Option ℕ) (records : Records)
    → Ascending last records
    → length (encode_records records) ≤ f
    → tlv_records f (encode_records records) last ≡ ok records
unfolding encode_records tlv_records
tlv_records-encode_records f last [] h enough = refl
tlv_records-encode_records zero last ((ty, v) ∷ records) (a, ty_fits, len_fits, asc) enough =
    absurd (
      omega (
        arith,
        length-write_bigsize ty,
        enough,
        length-append (write_bigsize ty)
            (write_bigsize (length v) ++ (v ++ encode_records records)),
      ))
tlv_records-encode_records (suc f) last ((ty, v) ∷ records) (a, ty_fits, len_fits, asc) enough =
    let behind = encode_records records in
    let after_ty = write_bigsize (length v) ++ (v ++ behind) in
    let shorter : length behind ≤ f = omega (
      arith,
      enough,
      length-write_bigsize ty,
      length-append (write_bigsize ty) after_ty,
      length-append (write_bigsize (length v)) (v ++ behind),
      length-append v behind,
    ) in
    round f (write_bigsize ty ++ after_ty) after_ty (v ++ behind) v behind last ty (length v)
      records (cursor_bigsize-write_bigsize ty after_ty ty_fits) a
      (cursor_bigsize-write_bigsize (length v) (v ++ behind) len_fits)
      (cursor_take-append (length v) v behind refl)
      (tlv_records-encode_records f (some ty) records asc shorter)

-- A proof that is parsed from bytes gives back its blob byte for byte, its types strictly
-- ascending and below 2^64, and its values shorter than 2^64.
pub reencode-parse_proof :
    (blob : Bytes) (p : Proof)
    → IsBytes blob
    → parse_proof blob ≡ ok p
    → (reencode p ≡ blob) × Ascending none p.records
unfolding parse_proof reencode parse_tlv
reencode-parse_proof blob p h e =
    elim (bind_ok (ensure (not (ltb (length blob) 4)) truncated) _ e) [
      | came u long e1 ↦
          elim (bind_ok (ensure (bytes_eq (take 4 blob) proof_magic) bad_proof_magic) _ e1) [
            | came w magic e2 ↦
                elim (bind_ok (tlv_records (length (drop 4 blob)) (drop 4 blob) none) _ e2) [
                  | came records r e3 ↦
                      let (back, asc) =
                        tlv_records_canonical (length (drop 4 blob)) (drop 4 blob) none records
                          (All-drop _ 4 blob h) r in
                      let same : records ≡ p.records = ground arith in
                      (
                        ap (λ k. proof_magic ++ encode_records k) (sym same)
                            ∙ ap (λ k. proof_magic ++ k) back
                            ∙ ap (λ k. k ++ drop 4 blob)
                                (sym (bytes_eq→eq (take 4 blob) proof_magic (ground arith)))
                            ∙ take-append-drop 4 blob,
                        subst (λ k. Ascending none k) same asc,
                      )
                ]
          ]
    ]

-- A proof of strictly ascending types below 2^64, with values shorter than 2^64, is parsed back
-- from its encoding.
pub parse_proof-reencode : (p : Proof) → Ascending none p.records → parse_proof (reencode p) ≡ ok p
unfolding parse_proof reencode parse_tlv
parse_proof-reencode p asc =
    let long : ltb (length (reencode p)) 4 ≡ false = ground arith in
    rw
      (
        long,
        tlv_records-encode_records (length (encode_records p.records)) none p.records asc
            (omega arith),
      )
      refl
