-- ===== src/BitSet.antt =====
-- src/bit_set.rs: `BitSet`, a fixed number of bits packed into bytes, lowest bit first.
pub mod Laws
mod Runs
use kudu_rs.Base.{
  Bool, List, Outcome, get_elem?, ltb, none, ok, panic, replicate, set, some, ℕ, ◌%◌, ◌+◌, ◌-◌, ◌/◌,
  ◌^◌,
}
use Prim.Native.Nat.{bit_and, bit_or}

-- The `data` of a `BitSet`.
abbrev pub BitSet : Type 0
BitSet = List ℕ

unfoldable pub with_capacity : ℕ → BitSet
with_capacity num_bits = replicate ((num_bits + 7) / 8) 0

-- `1 << (idx & 7)` on `u8`
unfoldable pub mask : ℕ → ℕ
mask idx = 2 ^ bit_and idx 7 % 256

-- `self.data[idx >> 3]` panics out of bounds.
unfoldable pub get : BitSet → ℕ → Outcome Bool
get s idx = elim (get_elem? s (idx / 8)) [
  | none ↦ panic
  | some byte ↦ ok (ltb 0 (bit_and byte (mask idx)))
]

unfoldable pub insert : BitSet → ℕ → Outcome BitSet
insert s idx = elim (get_elem? s (idx / 8)) [
  | none ↦ panic
  | some byte ↦ ok (set s (idx / 8) (bit_or byte (mask idx)))
]

-- `!(1 << (idx & 7))` on `u8` is 255 less the mask.
unfoldable pub remove : BitSet → ℕ → Outcome BitSet
remove s idx = elim (get_elem? s (idx / 8)) [
  | none ↦ panic
  | some byte ↦ ok (set s (idx / 8) (bit_and byte (255 - mask idx)))
]
