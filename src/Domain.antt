-- ===== src/Domain.antt =====
-- crates/satusd-types/src/domain.rs: the domain tags that the modelled hashes use, as the bytes of
-- the names.
use Prim.Native.Char.{code}
use Prim.Native.String.{String}
use sats_usd.Base.{[], ◌∷◌, Bytes}

-- `as_bytes` of an ASCII name.
abbrev pub codes : String → Bytes
codes String.[] = []
codes (String.◌∷◌ c s) = code c ∷ codes s

abbrev pub asset_family : Bytes
asset_family = codes "SATUSD_ASSET_FAMILY_V1"

abbrev pub redeem_intent : Bytes
redeem_intent = codes "SATUSD_REDEEM_INTENT_V1"

abbrev pub lock_tweak : Bytes
lock_tweak = codes "SATUSD_LOCK_TWEAK_V1"

abbrev pub lock_record : Bytes
lock_record = codes "SATUSD_LOCK_RECORD_V1"

abbrev pub redemption_nullifier : Bytes
redemption_nullifier = codes "SATUSD_REDEMPTION_NULLIFIER_V1"

abbrev pub claim_id : Bytes
claim_id = codes "SATUSD_CLAIM_ID_V1"

abbrev pub pending_claim : Bytes
pending_claim = codes "SATUSD_PENDING_CLAIM_V1"

abbrev pub issuer_position : Bytes
issuer_position = codes "SATUSD_ISSUER_POSITION_V1"

abbrev pub operator_position : Bytes
operator_position = codes "SATUSD_OPERATOR_POSITION_V1"

abbrev pub mint_request : Bytes
mint_request = codes "SATUSD_MINT_REQUEST_V1"

abbrev pub oracle_set : Bytes
oracle_set = codes "SATUSD_ORACLE_SET_V1"

abbrev pub lineage_proof : Bytes
lineage_proof = codes "SATUSD_LINEAGE_PROOF_V1"

abbrev pub reserve_committee : Bytes
reserve_committee = codes "SATUSD_RESERVE_COMMITTEE_V1"

abbrev pub burn_sink : Bytes
burn_sink = codes "SATUSD_BURN_SINK_V1"

abbrev pub burn_tweak : Bytes
burn_tweak = codes "SATUSD_BURN_TWEAK_V1"
