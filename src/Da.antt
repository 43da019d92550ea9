-- ===== src/Da.antt =====
-- crates/satusd-da/src/lib.rs: the Live DA bundle, its root and its wire form.
pub mod RoundTrip
pub mod Canonical
use mathlib.Core.List.{flatten}
use sats_usd.Base.{
  ℕ, zero, suc, ◌%◌, ◌^◌, List, [], ◌∷◌, ◌++◌, Bytes, Bool, true, false, Option, none, some, Result,
  ok, err, panic, ◌>>=◌, ◌>>◌, ensure, length, take, drop, get_or, map, leb, ltb, ◌==◌, not,
  bytes_eq, if◌then◌else◌,
}
use sats_usd.Crypto.{Crypto, sha256}
use sats_usd.Domain.{codes}
use sats_usd.Encoding.{u8, u32, u64}
use sats_usd.TaProof.Cursor.{from_be_bytes}

abbrev pub da_magic : Bytes
da_magic = codes "SUSDDA01"

abbrev pub da_version : ℕ
da_version = 1

pub record Section : Type 0 where
  pub id : ℕ
  pub content : Bytes

pub record LiveDaBundle : Type 0 where
  pub claim_id : Bytes
  pub state_epoch : ℕ
  pub sections : List Section

pub data DaError : Type 0 where
  bad_magic : DaError
  unsupported_version : ℕ → DaError
  truncated size_mismatch : DaError

-- `Section::wire`; `content.len() as u32` wraps.
unfoldable pub section_wire : Section → Bytes
section_wire s = u8 s.id ++ (u32 (length s.content % 2 ^ 32) ++ s.content)

-- `sort_by_key(|s| s.id)` is stable: a section goes in front of those with its id behind it.
unfoldable pub insert_section : Section → List Section → List Section
insert_section s [] = s ∷ []
insert_section s (t ∷ ts) =
    let behind = insert_section s ts in if leb s.id t.id then s ∷ t ∷ ts else t ∷ behind

unfoldable pub sort_sections : List Section → List Section
sort_sections [] = []
sort_sections (s ∷ ss) = insert_section s (sort_sections ss)

-- `LiveDABundle::new`.
unfoldable pub new_bundle : Bytes → ℕ → List Section → LiveDaBundle
new_bundle claim_id state_epoch sections = record {
  claim_id = claim_id;
  state_epoch = state_epoch;
  sections = sort_sections sections;
}

unfoldable pub find_section : ℕ → List Section → Option Bytes
find_section id [] = none
find_section id (s ∷ ss) = if s.id == id then some s.content else find_section id ss

-- `LiveDABundle::section`.
unfoldable pub section : LiveDaBundle → ℕ → Option Bytes
section b id = find_section id b.sections

unfoldable pub any_section : ℕ → List Section → Bool
any_section id [] = false
any_section id (s ∷ ss) = if s.id == id then true else any_section id ss

unfoldable pub has_section : LiveDaBundle → ℕ → Bool
has_section b id = any_section id b.sections

unfoldable pub sections_wire : List Section → Bytes
sections_wire [] = []
sections_wire (s ∷ ss) = section_wire s ++ sections_wire ss

module _ ⦃c : Crypto⦄ where
  unfoldable pub section_hash : Section → Bytes
  section_hash s = sha256 (section_wire s ∷ [])

  unfoldable pub live_da_root : LiveDaBundle → Bytes
  live_da_root b = sha256 (flatten (map section_hash b.sections) ∷ [])

  unfoldable pub encode_bundle : LiveDaBundle → Bytes
  encode_bundle b =
      let wire = sections_wire b.sections in
      da_magic
      ++ (da_version
          ∷ (b.claim_id
              ++ (u64 b.state_epoch ++ (live_da_root b ++ (u32 (length wire % 2 ^ 32) ++ wire)))))

-- The loop over the body, with fuel for the bytes left: a section takes five or more.
unfoldable pub decode_sections : ℕ → Bytes → Result DaError (List Section)
decode_sections f [] = ok []
decode_sections zero (b ∷ bs) = err truncated
decode_sections (suc f) (b ∷ bs) = do
  ensure (not (ltb (length (b ∷ bs)) 5)) truncated
  let size = from_be_bytes (take 4 bs)
  let behind = drop 4 bs
  ensure (leb size (length behind)) truncated
  ss ← decode_sections f (drop size behind)
  ok (record { id = b; content = take size behind } ∷ ss)

unfoldable pub decode_bundle : Bytes → Result DaError (LiveDaBundle × Bytes)
decode_bundle bytes = do
  ensure (not (ltb (length bytes) 85)) truncated
  ensure (bytes_eq (take 8 bytes) da_magic) bad_magic
  let version = get_or bytes 8 0
  ensure (version == da_version) (unsupported_version version)
  let body = drop 85 bytes
  ensure (length body == from_be_bytes (take 4 (drop 81 bytes))) size_mismatch
  sections ← decode_sections (length body) body
  ok (
    record {
      claim_id = take 32 (drop 9 bytes);
      state_epoch = from_be_bytes (take 8 (drop 41 bytes));
      sections = sections;
    },
    take 32 (drop 49 bytes),
  )
