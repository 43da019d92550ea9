-- ===== src/Encoding.antt =====
-- crates/satusd-types/src/encoding.rs. An `Encoder` method is the bytes that it pushes, so that
-- an `encode` is the concatenation of its calls.
pub mod Injective
use sats_usd.Base.{
  ℕ, zero, suc, ◌*◌, ◌/◌, ◌%◌, ◌^◌, List, [], ◌∷◌, ◌++◌, Bytes, Option, none, some, length,
}

-- `to_be_bytes` of an integer of n bytes.
unfoldable pub be_bytes : ℕ → ℕ → Bytes
be_bytes zero v = []
be_bytes (suc n) v = be_bytes n (v / 256) ++ (v % 256) ∷ []

unfoldable pub u8 : ℕ → Bytes
unfolding be_bytes
u8 v = be_bytes 1 v

unfoldable pub u16 : ℕ → Bytes
unfolding be_bytes
u16 v = be_bytes 2 v

unfoldable pub u32 : ℕ → Bytes
unfolding be_bytes
u32 v = be_bytes 4 v

unfoldable pub u64 : ℕ → Bytes
unfolding be_bytes
u64 v = be_bytes 8 v

unfoldable pub enum_u8 : ℕ → Bytes
unfolding u8
enum_u8 v = u8 v

unfoldable pub fixed : Bytes → Bytes
fixed b = b

-- `b.len() as u32` wraps.
unfoldable pub var_bytes : Bytes → Bytes
unfolding u32
var_bytes b = u32 (length b % 2 ^ 32) ++ b

module _ {ℓ} {T : Type ℓ} where
  unfoldable pub opt : Option T → (T → Bytes) → Bytes
  unfolding u8
  opt none f = u8 0
  opt (some inner) f = u8 1 ++ f inner

  unfoldable pub seq_items : List T → (T → Bytes) → Bytes
  seq_items [] f = []
  seq_items (item ∷ items) f = f item ++ seq_items items f

  -- `items.len() as u32` wraps.
  unfoldable pub seq : List T → (T → Bytes) → Bytes
  unfolding u32 seq_items
  seq items f = u32 (length items % 2 ^ 32) ++ seq_items items f
