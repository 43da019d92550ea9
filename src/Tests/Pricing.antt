-- ===== src/Tests/Pricing.antt =====
-- Five oracle messages, one of them far off.
use sats_usd.Base.{ℕ, ◌+◌, ◌*◌, ◌<◌, ◌≤◌, ◌≡◌, refl, List, [], ◌∷◌, Bytes, ok, length, arith}
use sats_usd.Crypto.{Crypto}
use sats_usd.Types.{OracleMessage}
use sats_usd.Derive.{oracle_set_hash}
use sats_usd.Transition.Signers.{Distinct}
use sats_usd.Oracle.{OracleParams, aggregate, median_price, count}
use sats_usd.Oracle.Median.{within, median_price-within}
use sats_usd.Oracle.Accepted.{signers, aggregate_accepted}
use sats_usd.Tests.Registering.{key}
use sats_usd.Tests.Toy.{toy}

abbrev message : ℕ → ℕ → OracleMessage
message signer price = record {
  domain = [];
  oracle_id = key signer;
  oracle_set_epoch = 4;
  price_epoch = 70;
  timestamp_ms = 1000000 * 1000 + signer;
  pair = [];
  price_e8 = price;
  source_commitment = [];
  signer_pubkey = key signer;
  signature = key signer;
}

abbrev messages : List OracleMessage
messages =
    message 3 6010000
    ∷ message 1 6000000
    ∷ message 5 9999999
    ∷ message 2 5990000
    ∷ message 4 6020000
    ∷ []

abbrev set : List Bytes
set = key 1 ∷ key 2 ∷ key 3 ∷ key 4 ∷ key 5 ∷ []

abbrev params : OracleParams
params = record {
  expected_oracle_set_epoch = 4;
  expected_oracle_set_hash =
      oracle_set_hash ⦃c = toy⦄ 4 (key 1 ∷ key 2 ∷ key 3 ∷ key 4 ∷ key 5 ∷ []);
  chain_time_sec = 1000030;
  max_epoch_lag_sec = 60;
  oracle_future_tolerance_sec = 10;
  signer_set = set;
}

priced : aggregate ⦃c = toy⦄ messages params ≡ ok 6010000
unfolding aggregate oracle_set_hash sats_usd.Crypto.tagged_hash sats_usd.Crypto.sha256
    mathlib.Core.List.flatten sats_usd.Encoding.u64 sats_usd.Encoding.be_bytes sats_usd.Encoding.u32
    sats_usd.Encoding.seq sats_usd.Encoding.seq_items sats_usd.Encoding.fixed
    sats_usd.Derive.sort_unstable sats_usd.Derive.insert_sorted sats_usd.Derive.bytes_leb
    sats_usd.Oracle.check_messages sats_usd.Oracle.is_inlier sats_usd.Oracle.sort_prices
    sats_usd.Oracle.insert_price count median_price
priced = refl

aggregate_accepted_example : Distinct (signers messages)
aggregate_accepted_example =
    (aggregate_accepted ⦃c = toy⦄ messages params 6010000 5990000 6020000 priced).3

abbrev prices : List ℕ
prices = 6010000 ∷ 6000000 ∷ 9999999 ∷ 5990000 ∷ 6020000 ∷ []

majority :
    length prices < count (within 5990000 6020000) prices + count (within 5990000 6020000) prices
unfolding count
majority = omega arith

median_price-within_example : (5990000 ≤ median_price prices) × (median_price prices ≤ 6020000)
median_price-within_example = median_price-within 5990000 6020000 prices majority
