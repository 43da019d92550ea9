-- ===== src/Transition/Signers.antt =====
-- Whose signatures the transition verifiers count.
use sats_usd.Base.{
  ℕ, ◌+◌, ◌≤◌, ◌≡◌, refl, List, [], ◌∷◌, Bytes, true, false, not, ◌||◌, arith, length, contains,
  All, Bool-cases, inl, inr,
}
use sats_usd.Crypto.{Crypto, verify_ecdsa}
use sats_usd.Transition.{count_signers, MultisigSig}

abbrev pub Distinct : List Bytes → Type 0
Distinct [] = Unit
Distinct (k ∷ ks) = (contains ks k ≡ false) × Distinct ks

module _ ⦃c : Crypto⦄ (message : Bytes) (authorized : List Bytes) where
  -- A member of the set for whom some signature of the message verifies.
  abbrev pub IsSigner : Bytes → Type 0
  IsSigner k =
      (contains authorized k ≡ true) × ((sig : Bytes) × (verify_ecdsa message k sig ≡ true))

  abbrev pub AreSigners : ℕ → Type 0
  AreSigners n = (ks : List Bytes) × (length ks ≡ n) × Distinct ks × All IsSigner ks

  counted :
      (sigs : List MultisigSig) (seen : List Bytes) (n : ℕ)
      → length seen ≡ n
      → Distinct seen
      → All IsSigner seen
      → AreSigners (count_signers message authorized sigs seen n)
  unfolding count_signers
  counted [] seen n l d a = (seen, l, d, a)
  counted (s ∷ sigs) seen n l d a =
      elim (Bool-cases
        (not (contains authorized s.signer_pubkey) || contains seen s.signer_pubkey)) [
          | inl skip ↦ rw skip (counted sigs seen n l d a)
          | inr fresh ↦ elim (Bool-cases (verify_ecdsa message s.signer_pubkey s.signature)) [
            | inl good ↦
                rw (fresh, good)
                  (counted sigs (s.signer_pubkey ∷ seen) (n + 1) (omega arith) (ground arith, d)
                    ((ground arith, (s.signature, good)), a))
            | inr bad ↦ rw (fresh, bad) (counted sigs seen n l d a)
          ]
        ]

  -- The number of signers that is counted is a number of distinct keys of the set, each with a
  -- signature of the message that verifies.
  pub count_signers-AreSigners :
      (sigs : List MultisigSig) → AreSigners (count_signers message authorized sigs [] 0)
  count_signers-AreSigners sigs = counted sigs [] 0 refl tt tt

  -- A count that reaches a threshold is that many signers or more.
  abbrev pub HasQuorum : ℕ → Type 0
  HasQuorum threshold = (n : ℕ) × (threshold ≤ n) × AreSigners n
