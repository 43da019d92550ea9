-- ===== src/Oracle.antt =====
-- crates/satusd-state/src/oracle.rs: the price that a quorum of signed oracle messages gives.
pub mod Median
pub mod Accepted
use sats_usd.Base.{
  ℕ, ◌+◌, ◌-◌, ◌*◌, ◌/◌, List, [], ◌∷◌, Bytes, Bool, true, false, not, ◌&&◌, ◌||◌, Result, ok, err,
  ◌>>=◌, ◌>>◌, ensure, length, map, get_or, contains, bytes_eq, ltb, leb, ◌==◌, if◌then◌else◌,
}
use sats_usd.Crypto.{Crypto, verify_eddsa_babyjub, oracle_message_hash}
use sats_usd.Derive.{oracle_set_hash}
use sats_usd.Types.{OracleMessage}

abbrev pub oracle_threshold : ℕ
oracle_threshold = 3

abbrev pub oracle_set_size : ℕ
oracle_set_size = 5

abbrev pub oracle_outlier_dev_bps : ℕ
oracle_outlier_dev_bps = 200

pub data OracleRejectReason : Type 0 where
  oracle_set_hash_mismatch quorum_insufficient wrong_oracle_set_epoch : OracleRejectReason
  stale_oracle future_oracle insufficient_inliers signature_invalid : OracleRejectReason
  signer_not_in_set duplicate_signer too_many_messages : OracleRejectReason

pub record OracleParams : Type 0 where
  pub expected_oracle_set_epoch : ℕ
  pub expected_oracle_set_hash : Bytes
  pub chain_time_sec : ℕ
  pub max_epoch_lag_sec : ℕ
  pub oracle_future_tolerance_sec : ℕ
  pub signer_set : List Bytes

-- The order of `sort_unstable` on prices, whose equal elements cannot be told apart.
unfoldable pub insert_price : ℕ → List ℕ → List ℕ
insert_price a [] = a ∷ []
insert_price a (b ∷ bs) = if leb a b then a ∷ b ∷ bs else b ∷ insert_price a bs

unfoldable pub sort_prices : List ℕ → List ℕ
sort_prices [] = []
sort_prices (a ∷ as_) = insert_price a (sort_prices as_)

-- `filter(..).count()`.
unfoldable pub count : (ℕ → Bool) → List ℕ → ℕ
count p [] = 0
count p (x ∷ xs) = if p x then 1 + count p xs else count p xs

-- `prices[prices.len() / 2]` of the sorted prices, of which there are at least three.
unfoldable pub median_price : List ℕ → ℕ
median_price prices = let sorted = sort_prices prices in get_or sorted (length sorted / 2) 0

-- `(pr as i128 - median as i128).unsigned_abs()`
abbrev pub abs_diff : ℕ → ℕ → ℕ
abs_diff a b = (a - b) + (b - a)

-- The inlier test: no product leaves 128 bits, as prices are `u64`.
unfoldable pub is_inlier : ℕ → ℕ → Bool
is_inlier median price = leb (abs_diff price median * 10000) (median * oracle_outlier_dev_bps)

module _ ⦃c : Crypto⦄ where
  unfoldable pub verify_signatures : List OracleMessage → Result OracleRejectReason (Unit {0})
  verify_signatures [] = ok tt
  verify_signatures (m ∷ messages) =
      let rest = verify_signatures messages in
      let h = oracle_message_hash m.oracle_set_epoch m.price_epoch m.timestamp_ms m.price_e8 in
      if verify_eddsa_babyjub m.signer_pubkey h m.signature then rest else err signature_invalid

-- The loop of `aggregate`, after the signers `seen`.
unfoldable pub check_messages :
    OracleParams → List OracleMessage → List Bytes → Result OracleRejectReason (Unit {0})
check_messages p [] seen = ok tt
check_messages p (m ∷ messages) seen =
    let ts = m.timestamp_ms / 1000 in
    let rest = check_messages p messages (m.signer_pubkey ∷ seen) in
    do
      ensure (contains p.signer_set m.signer_pubkey) signer_not_in_set
      ensure (not (contains seen m.signer_pubkey)) duplicate_signer
      ensure (m.oracle_set_epoch == p.expected_oracle_set_epoch) wrong_oracle_set_epoch
      ensure (not (ltb ts p.chain_time_sec && ltb p.max_epoch_lag_sec (p.chain_time_sec - ts)))
          stale_oracle
      ensure
          (not
            (ltb p.chain_time_sec ts && ltb p.oracle_future_tolerance_sec (ts - p.chain_time_sec)))
          future_oracle
      rest

module _ ⦃c : Crypto⦄ where
  unfoldable pub aggregate : List OracleMessage → OracleParams → Result OracleRejectReason ℕ
  aggregate messages p =
      let prices = map (λ m. m.price_e8) messages in
      let median = median_price prices in
      do
        ensure
            (bytes_eq (oracle_set_hash p.expected_oracle_set_epoch p.signer_set)
              p.expected_oracle_set_hash)
            oracle_set_hash_mismatch
        ensure (leb oracle_threshold (length messages)) quorum_insufficient
        ensure (leb (length messages) oracle_set_size) too_many_messages
        check_messages p messages []
        ensure (leb oracle_threshold (count (is_inlier median) (sort_prices prices)))
            insufficient_inliers
        ok median
