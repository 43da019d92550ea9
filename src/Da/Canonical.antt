-- ===== src/Da/Canonical.antt =====
-- The only bytes that are read as a Live DA bundle.
use mathlib.Core.Path.{subst}
use mathlib.Core.List.{append_assoc}
use sats_usd.Base.{
  ℕ, zero, suc, ◌+◌, ◌%◌, ◌^◌, ◌<◌, ◌≤◌, ◌≡◌, refl, ap, sym, ◌∙◌, List, [], ◌∷◌, ◌++◌, Bytes, ok,
  ensure, bind_ok, ensure-true, came, length, take, drop, get_or, leb, ltb, ◌==◌, not, bytes_eq,
  bytes_eq→eq, All-drop, All-take, arith, drop-split, drop_next, take-append-drop, length-take_le,
  length-drop, ==_iff,
}
use sats_usd.Crypto.{Crypto}
use sats_usd.Encoding.{be_bytes, u8, u32, u64}
use sats_usd.TaProof.Cursor.{from_be_bytes}
use sats_usd.TaProof.Cursor.Numbers.{IsBytes, be_bytes-from_be_bytes, from_be_bytes_lt}
use sats_usd.Da.{
  Section, LiveDaBundle, truncated, bad_magic, unsupported_version, size_mismatch, da_magic,
  da_version, section_wire, sections_wire, live_da_root, encode_bundle, decode_sections,
  decode_bundle,
}

-- The `n` bytes that are read as a number are the number's.
number_back :
    (n m : ℕ) (bs : Bytes)
    → IsBytes bs
    → m + n ≤ length bs
    → be_bytes n (from_be_bytes (take n (drop m bs))) ≡ take n (drop m bs)
number_back n m bs h room =
    let len : length (take n (drop m bs)) ≡ n =
      length-take_le (drop m bs) n (omega (arith, length-drop m bs)) in
    ap (λ k. be_bytes k (from_be_bytes (take n (drop m bs)))) (sym len)
    ∙ be_bytes-from_be_bytes (take n (drop m bs)) (All-take _ n (drop m bs) (All-drop _ m bs h))

wire_back :
    (b size : ℕ) (bs content left : Bytes)
    → b < 256
    → length content ≡ size
    → size < 2 ^ 32
    → be_bytes 4 size ++ (content ++ left) ≡ bs
    → section_wire (record { id = b; content = content }) ++ left ≡ b ∷ bs
unfolding section_wire u8 u32 be_bytes
wire_back b size bs content left hb len fits split =
    let byte : b % 256 ≡ b = omega arith in
    let number : length content % 2 ^ 32 ≡ size = omega (arith, len) in
    rw (byte, number) (ap (λ t. b ∷ t) (append_assoc (be_bytes 4 size) content left ∙ split))

sections_wire-decode_sections :
    (f : ℕ) (bs : Bytes) (ss : List Section)
    → IsBytes bs
    → length bs < 2 ^ 32
    → decode_sections f bs ≡ ok ss
    → sections_wire ss ≡ bs
unfolding decode_sections sections_wire section_wire u8 u32 be_bytes
sections_wire-decode_sections f [] [] h small e = refl
sections_wire-decode_sections f [] (s ∷ ss) h small e = absurd (cc)
sections_wire-decode_sections zero (b ∷ bs) ss h small e = absurd (cc)
sections_wire-decode_sections (suc f) (b ∷ bs) ss (hb, hbs) small e =
    let size = from_be_bytes (take 4 bs) in
    let behind = drop 4 bs in
    elim (bind_ok (ensure (not (ltb (length (b ∷ bs)) 5)) truncated) _ e) [
      | came _ long e1 ↦ elim (bind_ok (ensure (leb size (length behind)) truncated) _ e1) [
        | came _ fits e2 ↦ elim (bind_ok (decode_sections f (drop size behind)) _ e2) [
          | came rest d e3 ↦
              let back =
                sections_wire-decode_sections f (drop size behind) rest
                  (All-drop _ size behind (All-drop _ 4 bs hbs))
                  (omega (arith, length-drop size behind, length-drop 4 bs)) d in
              let fits' : size ≤ length behind = ground arith in
              let long' : 4 ≤ length bs = ground arith in
              let same : record { id = b; content = take size behind } ∷ rest ≡ ss = ground arith in
              let split : be_bytes 4 size ++ (take size behind ++ drop size behind) ≡ bs =
                ap (λ t. be_bytes 4 size ++ t) (take-append-drop size behind)
                ∙ ap (λ t. t ++ behind) (number_back 4 0 bs hbs long')
                ∙ take-append-drop 4 bs in
              ap sections_wire (sym same)
              ∙ ap (λ t. section_wire (record { id = b; content = take size behind }) ++ t) back
              ∙ wire_back b size bs (take size behind) (drop size behind) hb
                  (length-take_le behind size fits') (omega (arith, fits', length-drop 4 bs)) split
        ]
      ]
    ]

fits_u32 :
    (bytes : Bytes)
    → IsBytes bytes
    → 85 ≤ length bytes
    → length (drop 85 bytes) ≡ from_be_bytes (take 4 (drop 81 bytes))
    → length (drop 85 bytes) < 2 ^ 32
fits_u32 bytes h long size =
    let at81 = take 4 (drop 81 bytes) in
    let len : length at81 ≡ 4 =
      length-take_le (drop 81 bytes) 4 (omega (arith, length-drop 81 bytes)) in
    let below = from_be_bytes_lt at81 (All-take _ 4 (drop 81 bytes) (All-drop _ 81 bytes h)) in
    omega (arith, size, subst (λ k. from_be_bytes at81 < 256 ^ k) len below)

-- The header of a bundle, field by field.
header_split :
    (bytes : Bytes)
    → 85 ≤ length bytes
    → bytes
      ≡ take 8 bytes
        ++ (get_or bytes 8 0
            ∷ (take 32 (drop 9 bytes)
                ++ (take 8 (drop 41 bytes)
                    ++ (take 32 (drop 49 bytes) ++ (take 4 (drop 81 bytes) ++ drop 85 bytes)))))
header_split bytes long =
    let at8 : drop 8 bytes ≡ get_or bytes 8 0 ∷ drop 9 bytes = drop_next 8 bytes 0 (omega arith) in
    sym (take-append-drop 8 bytes)
    ∙ ap (λ t. take 8 bytes ++ t)
        (at8
          ∙ ap (λ t. get_or bytes 8 0 ∷ t)
              (drop-split 9 32 41 bytes refl
                ∙ ap (λ t. take 32 (drop 9 bytes) ++ t)
                    (drop-split 41 8 49 bytes refl
                      ∙ ap (λ t. take 8 (drop 41 bytes) ++ t)
                          (drop-split 49 32 81 bytes refl
                            ∙ ap (λ t. take 32 (drop 49 bytes) ++ t)
                                (drop-split 81 4 85 bytes refl)))))

fields_agree :
    (m m' : Bytes) (v v' : ℕ) (e e' r r' s s' w w' id : Bytes)
    → m ≡ m'
    → v ≡ v'
    → e ≡ e'
    → r ≡ r'
    → s ≡ s'
    → w ≡ w'
    → m ++ (v ∷ (id ++ (e ++ (r ++ (s ++ w))))) ≡ m' ++ (v' ∷ (id ++ (e' ++ (r' ++ (s' ++ w')))))
fields_agree m m' v v' e e' r r' s s' w w' id p q a b f g = cc

module _ ⦃c : Crypto⦄ where
  rebuild :
      (bytes : Bytes) (ss : List Section)
      → let b : LiveDaBundle = record {
        claim_id = take 32 (drop 9 bytes);
        state_epoch = from_be_bytes (take 8 (drop 41 bytes));
        sections = ss;
      } in
        IsBytes bytes
        → 85 ≤ length bytes
        → take 8 bytes ≡ da_magic
        → get_or bytes 8 0 ≡ da_version
        → length (drop 85 bytes) ≡ from_be_bytes (take 4 (drop 81 bytes))
        → sections_wire ss ≡ drop 85 bytes
        → length (drop 85 bytes) < 2 ^ 32
        → take 32 (drop 49 bytes) ≡ live_da_root b
        → encode_bundle b ≡ bytes
  unfolding encode_bundle u64 u32
  rebuild bytes ss h long magic version size wire small own =
      let epoch = number_back 8 41 bytes h (omega arith) in
      let number : length (drop 85 bytes) % 2 ^ 32 ≡ from_be_bytes (take 4 (drop 81 bytes)) =
        omega arith in
      let size_back = number_back 4 81 bytes h (omega arith) in
      fields_agree _ _ _ _ _ _ _ _ _ _ _ _ (take 32 (drop 9 bytes)) (sym magic) (sym version) epoch
        (sym own) (ap (be_bytes 4) (ap (λ t. length t % 2 ^ 32) wire ∙ number) ∙ size_back) wire
      ∙ sym (header_split bytes long)

  -- Bytes, each below 256, that are decoded as a Live DA bundle with a declared root that is the
  -- bundle's own are exactly the encoding of that bundle.
  pub encode_bundle-decode_bundle :
      (bytes : Bytes) (b : LiveDaBundle) (root : Bytes)
      → IsBytes bytes
      → decode_bundle bytes ≡ ok (b, root)
      → root ≡ live_da_root b
      → encode_bundle b ≡ bytes
  unfolding decode_bundle encode_bundle u64 u32
  encode_bundle-decode_bundle bytes b root h e own =
      elim (bind_ok (ensure (not (ltb (length bytes) 85)) truncated) _ e) [
        | came _ long e1 ↦
            elim (bind_ok (ensure (bytes_eq (take 8 bytes) da_magic) bad_magic) _ e1) [
              | came _ magic e2 ↦
                  elim (bind_ok
                    (ensure (get_or bytes 8 0 == da_version)
                      (unsupported_version (get_or bytes 8 0)))
                    _ e2) [
                      | came _ version e3 ↦
                          elim (bind_ok
                            (ensure
                              (length (drop 85 bytes) == from_be_bytes (take 4 (drop 81 bytes)))
                              size_mismatch)
                            _ e3) [
                              | came _ size e4 ↦
                                  elim (bind_ok
                                    (decode_sections (length (drop 85 bytes)) (drop 85 bytes)) _
                                    e4) [
                                      | came ss d e5 ↦
                                          let long' : 85 ≤ length bytes = ground arith in
                                          let size' =
                                            (==_iff (length (drop 85 bytes))
                                                (from_be_bytes (take 4 (drop 81 bytes)))).0
                                              (ensure-true _ size_mismatch size) in
                                          let small = fits_u32 bytes h long' size' in
                                          let wire =
                                            sections_wire-decode_sections _ (drop 85 bytes) ss
                                              (All-drop _ 85 bytes h) small d in
                                          let same : (record {
                                            claim_id = take 32 (drop 9 bytes);
                                            state_epoch = from_be_bytes (take 8 (drop 41 bytes));
                                            sections = ss;
                                          }
                                                ≡ b)
                                              × (take 32 (drop 49 bytes) ≡ root) =
                                            ground arith in
                                          let (here, its_root) = same in
                                          ap encode_bundle (sym here)
                                          ∙ rebuild bytes ss h long'
                                              (bytes_eq→eq _ _ (ensure-true _ bad_magic magic))
                                              ((==_iff _ _).0 (
                                                ensure-true _
                                                  (unsupported_version (get_or bytes 8 0)) version))
                                              size' wire small
                                              (its_root ∙ own ∙ ap live_da_root (sym here))
                                    ]
                            ]
                    ]
            ]
      ]
