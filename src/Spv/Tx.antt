-- ===== src/Spv/Tx.antt =====
-- The reserve script and the parsers of legacy transactions. Offsets are `usize` of 64 bits: plain
-- additions wrap, checked ones fail, and a slice whose end lies before its start panics.
use sats_usd.Base.{
  ℕ, zero, suc, ◌+◌, ◌-◌, ◌*◌, ◌%◌, ◌^◌, List, [], ◌∷◌, ◌++◌, Bytes, Option, none, some, Eval,
  value, panicked, length, get_elem?, take, drop, ltb, leb, ◌==◌, if◌then◌else◌, u64_mod,
  checked_add,
}
use sats_usd.Crypto.{Crypto, sha256}

-- The pushes of the keys in the witness script.
unfoldable pub push_keys : List Bytes → Bytes
push_keys [] = []
push_keys (pk ∷ pks) = 0x21 ∷ (pk ++ push_keys pks)

unfoldable pub reserve_witness_script : List Bytes → ℕ → Bytes
reserve_witness_script pubkeys threshold =
    ((0x50 + threshold) % 256)
    ∷ (push_keys pubkeys ++ ((0x50 + length pubkeys % 256) % 256) ∷ 0xae ∷ [])

unfoldable pub reserve_p2wsh_spk : ⦃c : Crypto⦄ → List Bytes → ℕ → Bytes
reserve_p2wsh_spk pubkeys threshold =
    0x00 ∷ 0x20 ∷ sha256 (reserve_witness_script pubkeys threshold ∷ [])

-- `from_le_bytes`.
unfoldable pub from_le_bytes : Bytes → ℕ
from_le_bytes [] = 0
from_le_bytes (b ∷ bs) = b + 256 * from_le_bytes bs

-- `b.get(i..i + n)`.
unfoldable pub get_slice : Bytes → ℕ → ℕ → Option Bytes
get_slice b i n = if leb (i + n) (length b) then some (take n (drop i b)) else none

-- The value of n bytes at i, with the offset behind them.
unfoldable pub read_le : Bytes → ℕ → ℕ → Option (ℕ × ℕ)
unfolding get_slice from_le_bytes
read_le b i n = elim (get_slice b i n) [ none ↦ none | some bs ↦ some (from_le_bytes bs, i + n) ]

-- The value and the offset behind it.
unfoldable pub read_varint : Bytes → ℕ → Option (ℕ × ℕ)
unfolding read_le
read_varint b i = elim (get_elem? b i) [
  | none ↦ none
  | some first ↦
      if first == 0xfd
      then read_le b (i + 1) 2
      else if first == 0xfe
      then read_le b (i + 1) 4
      else if first == 0xff
      then read_le b (i + 1) 8
      else some (first, i + 1)
]

-- The loop over the inputs in `legacy_tx_outputs`.
unfoldable pub skip_inputs : ℕ → Bytes → ℕ → Option ℕ
skip_inputs zero tx i = some i
skip_inputs (suc n) tx i =
    if ltb (length tx) (i + 36) then none else elim (read_varint tx (i + 36)) [
      | none ↦ none
      | some (script_len, j) ↦
          let next = skip_inputs n tx ((j + script_len + 4) % u64_mod) in
          if ltb (length tx) ((j + script_len + 4) % u64_mod) then none else next
    ]

-- The value of one output and the rest of the list; a panic of the rest is the whole's.
abbrev pub cons_output :
    ℕ × Bytes → Eval (Option (List (ℕ × Bytes))) → Eval (Option (List (ℕ × Bytes)))
cons_output out (value (some outs)) = value (some (out ∷ outs))
cons_output out (value none) = value none
cons_output out panicked = panicked

-- The loop over the outputs.
unfoldable pub read_outputs : ℕ → Bytes → ℕ → Eval (Option (List (ℕ × Bytes)))
unfolding from_le_bytes
read_outputs zero tx i = value (some [])
read_outputs (suc n) tx i =
    if ltb (length tx) (i + 8) then value none else elim (read_varint tx (i + 8)) [
      | none ↦ value none
      | some (script_len, j) ↦
          let rest = read_outputs n tx ((j + script_len) % u64_mod) in
          if ltb (length tx) ((j + script_len) % u64_mod)
          then value none
          else if ltb ((j + script_len) % u64_mod) j
          then panicked
          else cons_output (from_le_bytes (take 8 (drop i tx)), take script_len (drop j tx)) rest
    ]

-- `Vec::with_capacity` of 32-byte elements panics above `isize::MAX` bytes.
abbrev pub output_capacity : ℕ
output_capacity = 2 ^ 63 - 1

unfoldable pub legacy_tx_outputs : Bytes → Eval (Option (List (ℕ × Bytes)))
legacy_tx_outputs tx = elim (read_varint tx 4) [
  | none ↦ value none
  | some (n_in, i) ↦ elim (skip_inputs n_in tx i) [
    | none ↦ value none
    | some j ↦ elim (read_varint tx j) [
      | none ↦ value none
      | some (n_out, k) ↦
          if ltb output_capacity (n_out * 32) then panicked else read_outputs n_out tx k
    ]
  ]
]

-- The loop of `legacy_tx_input_outpoint`: the inputs from `idx` on, and what is found so far.
unfoldable pub find_outpoint : ℕ → ℕ → ℕ → Bytes → ℕ → Option (Bytes × ℕ) → Option (Bytes × ℕ)
unfolding get_slice read_le
find_outpoint zero idx input_index tx i found = found
find_outpoint (suc n) idx input_index tx i found = elim (get_slice tx i 32) [
  | none ↦ none
  | some txid ↦ elim (read_le tx (i + 32) 4) [
    | none ↦ none
    | some (vout, j) ↦ elim (read_varint tx j) [
      | none ↦ none
      | some (slen, k) ↦ elim (checked_add k slen) [
        | none ↦ none
        | some k' ↦ elim (checked_add k' 4) [
          | none ↦ none
          | some i' ↦
              let next =
                find_outpoint n (idx + 1) input_index tx i'
                  (if idx == input_index then some (txid, vout) else found) in
              if ltb (length tx) i' then none else next
        ]
      ]
    ]
  ]
]

unfoldable pub legacy_tx_input_outpoint : Bytes → ℕ → Option (Bytes × ℕ)
legacy_tx_input_outpoint tx input_index = elim (read_varint tx 4) [
  | none ↦ none
  | some (n_in, i) ↦
      if leb n_in input_index then none else find_outpoint n_in 0 input_index tx i none
]
