-- ===== src/TaProof/Tlv.antt =====
-- crates/satusd-ta-proof/src/lib.rs: TLV streams, single proofs and the proof file.
pub mod RoundTrip
pub mod Fuel
use sats_usd.Base.{
  ℕ, zero, suc, ◌*◌, ◌^◌, ◌-◌, List, [], ◌∷◌, ◌++◌, Bytes, Option, none, some, Result, ok, err,
  panic, ◌>>=◌, ◌>>◌, ensure, ok_or, length, take, drop, replicate, bytes_eq, leb, ltb, not, ◌&&◌,
  ◌==◌, if◌then◌else◌,
}
use sats_usd.Crypto.{Crypto, sha256}
use sats_usd.TaProof.Cursor.{
  ProofError, truncated, bad_file_magic, bad_proof_magic, checksum_mismatch, trailing_bytes,
  tlv_out_of_order, from_be_bytes, cursor_take, cursor_u32_be, cursor_bigsize, write_bigsize,
}

-- `Vec::with_capacity(n)` of slices, 16 bytes each.
abbrev pub slice_capacity : ℕ → Result ProofError (Unit {0})
slice_capacity n = if ltb (16 * n) (2 ^ 63) then ok tt else panic

abbrev pub file_magic : Bytes
file_magic = b'T' ∷ b'A' ∷ b'P' ∷ b'F' ∷ []

abbrev pub proof_magic : Bytes
proof_magic = b'T' ∷ b'A' ∷ b'P' ∷ b'P' ∷ []

abbrev pub Records : Type 0
Records = List (ℕ × Bytes)

-- `if let Some(prev) = last { if ty <= prev { .. } }`
abbrev pub ascends : Option ℕ → ℕ → Result ProofError (Unit {0})
ascends none ty = ok tt
ascends (some prev) ty = ensure (not (leb ty prev)) tlv_out_of_order

-- The loop of `parse_tlv`, with fuel for the bytes that are left; each round takes two or more.
unfoldable pub tlv_records : ℕ → Bytes → Option ℕ → Result ProofError Records
tlv_records f [] last = ok []
tlv_records zero (b ∷ bs) last = err truncated
tlv_records (suc f) (b ∷ bs) last = do
  (ty, rest) ← cursor_bigsize (b ∷ bs)
  ascends last ty
  (len, rest') ← cursor_bigsize rest
  (v, left) ← cursor_take len rest'
  records ← tlv_records f left (some ty)
  ok ((ty, v) ∷ records)

unfoldable pub parse_tlv : Bytes → Result ProofError Records
parse_tlv b = tlv_records (length b) b none

unfoldable pub bigsize_exact : Bytes → Result ProofError ℕ
bigsize_exact v = do (x, rest) ← cursor_bigsize v; ensure (length rest == 0) trailing_bytes; ok x

-- `iter().find(|(ty, _)| *ty == t)`: `Proof::get` and the `get` of the other parsers.
unfoldable pub find_record : ℕ → Records → Option Bytes
find_record t [] = none
find_record t ((ty, v) ∷ recs) = if ty == t then some v else find_record t recs

-- A single `proof.Proof`.
pub record Proof : Type 0 where
  pub records : Records

unfoldable pub get_field : Proof → ℕ → Option Bytes
get_field p ty = find_record ty p.records

unfoldable pub u32_field : Proof → ℕ → Option ℕ
u32_field p ty = elim (get_field p ty) [
  | none ↦ none
  | some v ↦ if length v == 4 then some (from_be_bytes v) else none
]

unfoldable pub version_field : Proof → Option ℕ
version_field p = u32_field p 0

unfoldable pub block_height : Proof → Option ℕ
block_height p = u32_field p 22

-- `write_bigsize(ty); write_bigsize(len); extend(v)` over the records.
unfoldable pub encode_records : Records → Bytes
encode_records [] = []
encode_records ((ty, v) ∷ records) =
    write_bigsize ty ++ (write_bigsize (length v) ++ (v ++ encode_records records))

unfoldable pub reencode : Proof → Bytes
reencode p = proof_magic ++ encode_records p.records

-- `parse_proof`: `get(0..4)` is `None` on a short blob.
unfoldable pub parse_proof : Bytes → Result ProofError Proof
parse_proof blob = do
  ensure (not (ltb (length blob) 4)) truncated
  ensure (bytes_eq (take 4 blob) proof_magic) bad_proof_magic
  records ← parse_tlv (drop 4 blob)
  ok (record { records = records })

pub record ProofFile : Type 0 where
  pub version : ℕ
  pub proofs : List Bytes

module _ ⦃c : Crypto⦄ where
  -- The loop of `parse_proof_file` over the hash chain.
  unfoldable pub file_proofs : ℕ → Bytes → Bytes → Result ProofError (List Bytes × Bytes)
  file_proofs zero prev_hash b = ok ([], b)
  file_proofs (suc count) prev_hash b = do
    (len, rest) ← cursor_bigsize b
    (proof, rest') ← cursor_take len rest
    ensure (not (ltb (length proof) 4) && bytes_eq (take 4 proof) proof_magic) bad_proof_magic
    (checksum, left) ← cursor_take 32 rest'
    let h = sha256 (prev_hash ∷ proof ∷ [])
    ensure (bytes_eq h checksum) checksum_mismatch
    (proofs, end) ← file_proofs count h left
    ok (proof ∷ proofs, end)

  unfoldable pub parse_proof_file : Bytes → Result ProofError ProofFile
  parse_proof_file b = do
    (magic, rest) ← cursor_take 4 b
    ensure (bytes_eq magic file_magic) bad_file_magic
    (version, rest') ← cursor_u32_be rest
    (count, left) ← cursor_bigsize rest'
    slice_capacity count
    (proofs, end) ← file_proofs count (replicate 32 0) left
    ensure (length end == 0) trailing_bytes
    ok (record { version = version; proofs = proofs })

-- `ProofFile::parsed`.
unfoldable pub parse_all : List Bytes → Result ProofError (List Proof)
parse_all [] = ok []
parse_all (b ∷ bs) = do p ← parse_proof b; ps ← parse_all bs; ok (p ∷ ps)

unfoldable pub parsed : ProofFile → Result ProofError (List Proof)
parsed file = parse_all file.proofs
