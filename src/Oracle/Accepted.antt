-- ===== src/Oracle/Accepted.antt =====
-- What the messages that `aggregate` accepts are.
use sats_usd.Base.{
  ℕ, ◌+◌, ◌/◌, ◌≤◌, ◌<◌, ◌≡◌, refl, List, [], ◌∷◌, Bytes, true, false, ok, arith, length, map,
  contains, bytes_eq, bytes_eq→eq, eq→bytes_eq, sym, All,
}
use sats_usd.Crypto.{Crypto}
use sats_usd.Types.{OracleMessage}
use sats_usd.Transition.Signers.{Distinct}
use sats_usd.Derive.{oracle_set_hash}
use sats_usd.Oracle.{OracleParams, check_messages, aggregate, median_price, count, is_inlier}
use sats_usd.Oracle.Median.{count-sort_prices, within, median_price-within}

-- A message of a signer of the set, for the epoch, at most the lag old and the tolerance early.
abbrev pub IsFresh : OracleParams → OracleMessage → Type 0
IsFresh p m =
    (contains p.signer_set m.signer_pubkey ≡ true)
    × (m.oracle_set_epoch ≡ p.expected_oracle_set_epoch)
    × (p.chain_time_sec ≤ m.timestamp_ms / 1000 + p.max_epoch_lag_sec)
    × (m.timestamp_ms / 1000 ≤ p.chain_time_sec + p.oracle_future_tolerance_sec)

abbrev pub signers : List OracleMessage → List Bytes
signers messages = map (λ m. m.signer_pubkey) messages

unseen :
    (k : Bytes) (seen : List Bytes) (ks : List Bytes)
    → All (λ j. contains (k ∷ seen) j ≡ false) ks
    → (contains ks k ≡ false) × All (λ j. contains seen j ≡ false) ks
unseen k seen [] h = (refl, tt)
unseen k seen (j ∷ ks) (h, hs) =
    let (p, q) = unseen k seen ks hs in
    let s : bytes_eq j k ≡ true → bytes_eq k j ≡ true =
      λ e. eq→bytes_eq k j (sym (bytes_eq→eq j k e)) in
    (ground (arith, s), (ground arith, q))

pub check_messages-IsFresh :
    (p : OracleParams) (messages : List OracleMessage) (seen : List Bytes)
    → check_messages p messages seen ≡ ok tt
    → All (IsFresh p) messages
      × Distinct (signers messages)
      × All (λ k. contains seen k ≡ false) (signers messages)
unfolding check_messages
check_messages-IsFresh p [] seen h = (tt, tt, tt)
check_messages-IsFresh p (m ∷ messages) seen h =
    let (fresh, distinct, new) =
      check_messages-IsFresh p messages (m.signer_pubkey ∷ seen) (ground arith) in
    let (a, b) = unseen m.signer_pubkey seen (signers messages) new in
    (
      ((ground arith, ground arith, ground arith, ground arith), fresh),
      (a, distinct),
      (ground arith, b),
    )

module _ ⦃c : Crypto⦄ where
  -- A price that aggregate accepts comes from three to five messages of distinct signers of the
  -- committed set, of the expected epoch and inside the time window; three prices or more are
  -- within 2% of it; it lies in every band that holds more than half of the prices.
  pub aggregate_accepted :
      (messages : List OracleMessage) (p : OracleParams) (price lo hi : ℕ)
      → aggregate messages p ≡ ok price
      → let prices = map (λ m. m.price_e8) messages in
        (oracle_set_hash p.expected_oracle_set_epoch p.signer_set ≡ p.expected_oracle_set_hash)
        × ((3 ≤ length messages) × (length messages ≤ 5))
        × All (IsFresh p) messages
        × Distinct (signers messages)
        × (3 ≤ count (is_inlier price) prices)
        × (length prices < count (within lo hi) prices + count (within lo hi) prices
            → (lo ≤ price) × (price ≤ hi))
  unfolding aggregate
  aggregate_accepted messages p price lo hi h =
      let prices = map (λ m. m.price_e8) messages in
      let m : median_price prices ≡ price = ground arith in
      let (fresh, distinct, _) = check_messages-IsFresh p messages [] (ground arith) in
      (
        ground (
          arith,
          bytes_eq→eq (oracle_set_hash p.expected_oracle_set_epoch p.signer_set)
              p.expected_oracle_set_hash,
        ),
        (ground arith, ground arith),
        fresh,
        distinct,
        ground (arith, m, count-sort_prices (is_inlier price) prices),
        λ majority. rw (sym m) (median_price-within lo hi prices majority),
      )
