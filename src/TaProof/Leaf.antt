-- ===== src/TaProof/Leaf.antt =====
-- crates/satusd-ta-proof/src/lib.rs: the asset leaf, the taproot proof and the commitment proof
-- that the records of a proof hold.
use sats_usd.Base.{
  ℕ, ◌/◌, ◌%◌, [], ◌∷◌, ◌++◌, Bytes, Bool, true, false, ◌&&◌, not, Option, none, some, Result, ok,
  err, panic, ◌>>=◌, ◌>>◌, ensure, ok_or, length, get_or, ◌==◌, if◌then◌else◌,
}
use sats_usd.Crypto.{Crypto, sha256}
use sats_usd.Encoding.{u32}
use sats_usd.TaProof.Cursor.{
  ProofError, truncated, trailing_bytes, bad_field_length, from_be_bytes, cursor_take,
  cursor_u32_be, cursor_bigsize, write_bigsize,
}
use sats_usd.TaProof.Tlv.{
  Records, parse_tlv, bigsize_exact, find_record, encode_records, Proof, get_field,
}

pub record Genesis : Type 0 where
  pub first_prev_out_txid : Bytes
  pub first_prev_out_vout : ℕ
  pub tag : Bytes
  pub meta_hash : Bytes
  pub output_index : ℕ
  pub asset_type : ℕ

-- `to_le_bytes` of a `u32`.
unfoldable pub u32_le : ℕ → Bytes
u32_le v = v % 256 ∷ v / 256 % 256 ∷ v / 65536 % 256 ∷ v / 16777216 % 256 ∷ []

unfoldable pub asset_id : ⦃c : Crypto⦄ → Genesis → Bytes
asset_id g = sha256 (
    g.first_prev_out_txid
    ∷ u32_le g.first_prev_out_vout
    ∷ sha256 (g.tag ∷ [])
    ∷ g.meta_hash
    ∷ u32 g.output_index
    ∷ (g.asset_type ∷ [])
    ∷ [])

pub record AssetLeaf : Type 0 where
  pub version : ℕ
  pub genesis : Genesis
  pub asset_type : ℕ
  pub amount : ℕ
  pub script_version : ℕ
  pub script_key : Bytes
  pub group_key : Option Bytes

unfoldable pub parse_genesis : Bytes → Result ProofError Genesis
parse_genesis v = do
  (txid, r1) ← cursor_take 32 v
  (vout, r2) ← cursor_u32_be r1
  (tag_len, r3) ← cursor_bigsize r2
  (tag, r4) ← cursor_take tag_len r3
  (meta_hash, r5) ← cursor_take 32 r4
  (output_index, r6) ← cursor_u32_be r5
  (kind, r7) ← cursor_take 1 r6
  ensure (length r7 == 0) trailing_bytes
  ok (record {
    first_prev_out_txid = txid;
    first_prev_out_vout = vout;
    tag = tag;
    meta_hash = meta_hash;
    output_index = output_index;
    asset_type = get_or kind 0 0;
  })

-- `get(t).ok_or(Truncated)`.
abbrev pub required : Records → ℕ → Result ProofError Bytes
required recs t = ok_or (find_record t recs) truncated

-- A big-endian number of exactly `n` bytes: `<[u8; n]>::try_from(v)`.
unfoldable pub exact : ℕ → ProofError → Bytes → Result ProofError ℕ
exact n e v = if length v == n then ok (from_be_bytes v) else err e

unfoldable pub parse_asset_leaf : Bytes → Result ProofError AssetLeaf
parse_asset_leaf b = do
  recs ← parse_tlv b
  v0 ← required recs 0
  version ← exact 1 truncated v0
  v2 ← required recs 2
  genesis ← parse_genesis v2
  v4 ← required recs 4
  kind ← exact 1 truncated v4
  v6 ← required recs 6
  amount ← bigsize_exact v6
  v14 ← required recs 14
  script_version ← exact 2 truncated v14
  script_key ← required recs 16
  ok (record {
    version = version;
    genesis = genesis;
    asset_type = kind;
    amount = amount;
    script_version = script_version;
    script_key = script_key;
    group_key = find_record 17 recs;
  })

-- `Proof::asset_leaf`.
unfoldable pub asset_leaf : Proof → Result ProofError AssetLeaf
asset_leaf p = do v ← ok_or (get_field p 10) truncated; parse_asset_leaf v

pub record TaprootProof : Type 0 where
  pub output_index : ℕ
  pub internal_key : Bytes
  pub commitment_proof : Option Bytes
  pub tapscript_proof : Option Bytes

pub record AssetProof : Type 0 where
  pub version : ℕ
  pub asset_id : Bytes
  pub mssmt_proof : Bytes

pub record TaprootAssetProof : Type 0 where
  pub version : ℕ
  pub mssmt_proof : Bytes

pub record CommitmentProof : Type 0 where
  pub asset_proof : AssetProof
  pub taproot_asset_proof : TaprootAssetProof
  pub tap_sibling : Option Bytes

unfoldable pub parse_commitment_proof : Bytes → Result ProofError CommitmentProof
parse_commitment_proof b = do
  recs ← parse_tlv b
  a ← required recs 1
  ap_recs ← parse_tlv a
  a0 ← required ap_recs 0
  version ← exact 1 bad_field_length a0
  id ← required ap_recs 2
  mssmt ← required ap_recs 4
  t ← required recs 2
  tp_recs ← parse_tlv t
  t0 ← required tp_recs 0
  tap_version ← exact 1 bad_field_length t0
  tap_mssmt ← required tp_recs 2
  ok (record {
    asset_proof = record { version = version; asset_id = id; mssmt_proof = mssmt };
    taproot_asset_proof = record { version = tap_version; mssmt_proof = tap_mssmt };
    tap_sibling = find_record 5 recs;
  })

unfoldable pub parse_taproot_proof : Bytes → Result ProofError TaprootProof
parse_taproot_proof b = do
  recs ← parse_tlv b
  v0 ← required recs 0
  output_index ← exact 4 bad_field_length v0
  internal_key ← required recs 2
  ok (record {
    output_index = output_index;
    internal_key = internal_key;
    commitment_proof = find_record 3 recs;
    tapscript_proof = find_record 5 recs;
  })

-- `parse_commitment().ok_or(Truncated)??`.
unfoldable pub parse_commitment : TaprootProof → Result ProofError CommitmentProof
parse_commitment t = do v ← ok_or t.commitment_proof truncated; parse_commitment_proof v

-- `any(|(ty, _)| ty == t)`.
unfoldable pub has_record : ℕ → Records → Bool
has_record t [] = false
has_record t ((ty, v) ∷ recs) = if ty == t then true else has_record t recs

-- The records without type 5, `SPLIT_COMMITMENT`.
unfoldable pub without_split : Records → Records
without_split [] = []
without_split ((ty, v) ∷ recs) =
    let rest = without_split recs in if ty == 5 then rest else (ty, v) ∷ rest

-- The records with the value `new_pw` at type 11, `PREV_WITNESS`.
unfoldable pub with_prev_witness : Bytes → Records → Records
with_prev_witness new_pw [] = []
with_prev_witness new_pw ((ty, v) ∷ recs) =
    (ty, if ty == 11 then new_pw else v) ∷ with_prev_witness new_pw recs

-- `split_committed_leaf_bytes`, whose `None` is every error here.
unfoldable pub split_leaf : Bytes → Result ProofError Bytes
split_leaf asset_leaf_bytes = do
  recs ← parse_tlv asset_leaf_bytes
  pw ← required recs 11
  (count, r1) ← cursor_bigsize pw
  ensure (count == 1) truncated
  (wlen, r2) ← cursor_bigsize r1
  (witness, r3) ← cursor_take wlen r2
  ensure (length r3 == 0) truncated
  wrecs ← parse_tlv witness
  ensure (has_record 1 wrecs && (not (has_record 3 wrecs) && has_record 5 wrecs)) truncated
  let new_witness = encode_records (without_split wrecs)
  let new_pw = write_bigsize 1 ++ (write_bigsize (length new_witness) ++ new_witness)
  ok (encode_records (with_prev_witness new_pw recs))

unfoldable pub split_committed_leaf_bytes : Bytes → Option Bytes
split_committed_leaf_bytes b = elim (split_leaf b) [ ok v ↦ some v | err e ↦ none | panic ↦ none ]
