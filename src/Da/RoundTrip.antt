-- ===== src/Da/RoundTrip.antt =====
-- A Live DA bundle as it is written and as it is read.

use mathlib.Core.List.{append_assoc}
use sats_usd.Base.{
  ℕ, zero, suc, ◌+◌, ◌%◌, ◌^◌, ◌<◌, ◌≤◌, ◌≡◌, refl, ap, sym, ◌∙◌, List, [], ◌∷◌, ◌++◌, Bytes, ok,
  length, take, drop, get_or, leb, ltb, true, false, ==_iff, All, arith, length-append, take-append,
  drop-append, drop-drop,
}
use sats_usd.Crypto.{Crypto, sha256}
use sats_usd.Encoding.{be_bytes, u8, u32, u64}
use sats_usd.Encoding.Injective.{length-be_bytes}
use sats_usd.TaProof.Cursor.{from_be_bytes}
use sats_usd.TaProof.Cursor.Numbers.{from_be_bytes-be_bytes}
use sats_usd.Da.{
  Section, LiveDaBundle, da_magic, da_version, section_wire, sections_wire, live_da_root,
  encode_bundle, decode_sections, decode_bundle,
}

-- Sections with a byte for an id.
abbrev pub ById : List Section → Type 0
ById ss = All (λ s. s.id < 256) ss

round :
    (f b size : ℕ) (bs content left : Bytes) (ss : List Section)
    → length content ≡ size
    → size < 2 ^ 32
    → bs ≡ u32 size ++ (content ++ left)
    → decode_sections f left ≡ ok ss
    → decode_sections (suc f) (b ∷ bs) ≡ ok (record { id = b; content = content } ∷ ss)
unfolding decode_sections u32
round f b size bs content left ss len fits split rest =
    let four = length-be_bytes 4 size in
    let front : take 4 bs ≡ be_bytes 4 size =
      ap (take 4) split ∙ take-append 4 (be_bytes 4 size) (content ++ left) four in
    let back : drop 4 bs ≡ content ++ left =
      ap (drop 4) split ∙ drop-append 4 (be_bytes 4 size) (content ++ left) four in
    let number : from_be_bytes (take 4 bs) ≡ size =
      ap from_be_bytes front ∙ from_be_bytes-be_bytes 4 size fits in
    let long : ltb (length (b ∷ bs)) 5 ≡ false =
      ground (arith, ap length split, length-append (be_bytes 4 size) (content ++ left)) in
    let room : leb size (length (content ++ left)) ≡ true =
      ground (arith, length-append content left) in
    rw
      (
        long,
        number,
        back,
        room,
        take-append size content left len,
        drop-append size content left len,
        rest,
      )
      refl

decode_sections-sections_wire :
    (f : ℕ) (ss : List Section)
    → ById ss
    → length (sections_wire ss) ≤ f
    → f < 2 ^ 32
    → decode_sections f (sections_wire ss) ≡ ok ss
unfolding sections_wire section_wire u8 u32 be_bytes decode_sections
decode_sections-sections_wire f [] h enough small = refl
decode_sections-sections_wire zero (s ∷ ss) h enough small = absurd (omega arith)
decode_sections-sections_wire (suc f) (s ∷ ss) (h, hs) enough small =
    let behind = sections_wire ss in
    let size = length s.content % 2 ^ 32 in
    let shorter : length s.content + length behind ≤ f = omega (
      arith,
      enough,
      length-append (be_bytes 4 size ++ s.content) behind,
      length-append (be_bytes 4 size) s.content,
      length-be_bytes 4 size,
    ) in
    let fits : size ≡ length s.content = omega arith in
    let byte : s.id % 256 ≡ s.id = omega arith in
    round f (s.id % 256) size _ s.content behind ss (sym fits) (omega arith)
      (append_assoc (be_bytes 4 size) s.content behind)
      (decode_sections-sections_wire f ss hs (omega arith) (omega arith))
    ∙ ap (λ b. ok (record { id = b; content = s.content } ∷ ss)) byte

-- The bundles that the fields of the header hold: a claim id of 32 bytes, a `u64` epoch and
-- sections that together fill less than 2^32 bytes.
abbrev pub Fits : LiveDaBundle → Type 0
Fits b =
    (length b.claim_id ≡ 32)
    × (b.state_epoch < 2 ^ 64)
    × ById b.sections
    × (length (sections_wire b.sections) < 2 ^ 32)

not_below : (a b : ℕ) → b ≤ a → ltb a b ≡ false
not_below a b h = ground arith

read_header :
    (bytes id root body : Bytes) (epoch : ℕ) (ss : List Section)
    → 85 ≤ length bytes
    → take 8 bytes ≡ da_magic
    → get_or bytes 8 0 ≡ da_version
    → take 32 (drop 9 bytes) ≡ id
    → from_be_bytes (take 8 (drop 41 bytes)) ≡ epoch
    → take 32 (drop 49 bytes) ≡ root
    → from_be_bytes (take 4 (drop 81 bytes)) ≡ length body
    → drop 85 bytes ≡ body
    → decode_sections (length body) body ≡ ok ss
    → decode_bundle bytes ≡ ok (record { claim_id = id; state_epoch = epoch; sections = ss }, root)
unfolding decode_bundle
read_header bytes id root body epoch ss long magic version at9 at41 at49 at81 at85 sections =
    let enough : ltb (length bytes) 85 ≡ false = not_below (length bytes) 85 long in
    rw
      (
        enough,
        magic,
        version,
        at9,
        at41,
        at49,
        at81,
        at85,
        (==_iff (length body) (length body)).1 refl,
        sections,
      )
      refl

module _ ⦃c : Crypto⦄ where
  -- SHA-256 gives 32 bytes.
  abbrev pub Digests : Type 0
  Digests = (b : Bytes) → length (c.sha2 b) ≡ 32

  -- Where SHA-256 gives 32 bytes, a Live DA bundle with a claim id of 32 bytes, a u64 epoch, byte
  -- ids and less than 2^32 bytes of sections is decoded from its encoding, with its root.
  pub decode_bundle-encode_bundle :
      Digests
      → (b : LiveDaBundle) → Fits b
      → decode_bundle (encode_bundle b) ≡ ok (b, live_da_root b)
  unfolding decode_bundle encode_bundle u64 u32 live_da_root sha256
  decode_bundle-encode_bundle digests b (id_len, epoch_fits, ids, small) =
      let wire = sections_wire b.sections in
      let size = length wire % 2 ^ 32 in
      let fits : size ≡ length wire = omega arith in
      let root = live_da_root b in
      let root_len : length root ≡ 32 = digests _ in
      let epoch = be_bytes 8 b.state_epoch in
      let tail4 = be_bytes 4 size ++ wire in
      let tail3 = root ++ tail4 in
      let tail2 = epoch ++ tail3 in
      let tail1 = b.claim_id ++ tail2 in
      let at41 : drop 32 tail1 ≡ tail2 = drop-append 32 b.claim_id tail2 id_len in
      let at49 : drop 40 tail1 ≡ tail3 =
        drop-drop 32 8 40 tail1 refl
        ∙ ap (drop 8) at41
        ∙ drop-append 8 epoch tail3 (length-be_bytes 8 b.state_epoch) in
      let at81 : drop 72 tail1 ≡ tail4 =
        drop-drop 40 32 72 tail1 refl ∙ ap (drop 32) at49 ∙ drop-append 32 root tail4 root_len in
      let at85 : drop 76 tail1 ≡ wire =
        drop-drop 72 4 76 tail1 refl
        ∙ ap (drop 4) at81
        ∙ drop-append 4 (be_bytes 4 size) wire (length-be_bytes 4 size) in
      read_header (encode_bundle b) b.claim_id root wire b.state_epoch b.sections
        (omega (
          arith,
          length-append b.claim_id tail2,
          length-append epoch tail3,
          length-append root tail4,
          length-append (be_bytes 4 size) wire,
          id_len,
          root_len,
          length-be_bytes 8 b.state_epoch,
          length-be_bytes 4 size,
        ))
        refl refl (take-append 32 b.claim_id tail2 id_len)
        (ap (λ t. from_be_bytes (take 8 t)) at41
          ∙ ap from_be_bytes (take-append 8 epoch tail3 (length-be_bytes 8 b.state_epoch))
          ∙ from_be_bytes-be_bytes 8 b.state_epoch epoch_fits)
        (ap (take 32) at49 ∙ take-append 32 root tail4 root_len)
        (ap (λ t. from_be_bytes (take 4 t)) at81
          ∙ ap from_be_bytes (take-append 4 (be_bytes 4 size) wire (length-be_bytes 4 size))
          ∙ from_be_bytes-be_bytes 4 size (omega arith)
          ∙ fits)
        at85 (decode_sections-sections_wire (length wire) b.sections ids (omega arith) small)
