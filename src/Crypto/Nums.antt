-- ===== src/Crypto/Nums.antt =====
-- crates/satusd-crypto/src/nums.rs: NUMS keys and the protocol's burn sink.
use sats_usd.Base.{
  ℕ, zero, suc, ◌+◌, ◌^◌, [], ◌∷◌, Bytes, none, some, Bool, true, false, Eval, value, panicked,
}
use sats_usd.Crypto.Params.{Crypto}
use sats_usd.Crypto.Hash.{sha256, tap_tweak}
use sats_usd.Domain.{burn_sink, burn_tweak}
use sats_usd.Encoding.{u32}

module _ ⦃c : Crypto⦄ where
  unfoldable pub is_valid_xonly : Bytes → Bool
  is_valid_xonly x = elim (c.xonly_from x) [ some _ ↦ true | none ↦ false ]

  -- The loop from the counter `ctr` on, with fuel for the counters left: behind the last of them
  -- `ctr += 1` overflows.
  unfoldable pub nums_from : ℕ → Bytes → Bytes → ℕ → Eval Bytes
  nums_from zero domain_name salt ctr = panicked
  nums_from (suc f) domain_name salt ctr =
      let seed = sha256 (domain_name ∷ salt ∷ u32 ctr ∷ []) in
      elim (is_valid_xonly seed) [
        | true ↦ value seed
        | false ↦ nums_from f domain_name salt (ctr + 1)
      ]

  unfoldable pub derive_nums_key : Bytes → Bytes → Eval Bytes
  unfolding nums_from
  derive_nums_key domain_name salt = nums_from (2 ^ 32) domain_name salt 0

  unfoldable pub protocol_burn_internal_key : Bytes → Eval Bytes
  unfolding derive_nums_key
  protocol_burn_internal_key asset_family_id = derive_nums_key burn_sink asset_family_id

  unfoldable pub protocol_burn_tweak : Bytes → Bytes
  unfolding sha256
  protocol_burn_tweak asset_family_id = sha256 (burn_tweak ∷ asset_family_id ∷ [])

  unfoldable pub protocol_sink_script_key : Bytes → Eval Bytes
  unfolding tap_tweak protocol_burn_internal_key protocol_burn_tweak
  protocol_sink_script_key asset_family_id = elim (protocol_burn_internal_key asset_family_id) [
    | panicked ↦ panicked
    | value internal ↦ tap_tweak internal (protocol_burn_tweak asset_family_id)
  ]
