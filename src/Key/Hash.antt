-- ===== src/Key/Hash.antt =====
-- `murmur2_64` and hash partition keys of src/key.rs, with `HashPartitionSchema` of src/partition.rs.
-- The native byte order is that of a little-endian machine.
pub mod Reference
pub mod Words
pub mod Total
mod Runs
use kudu_rs.Base.{
  Bool, List, Outcome, drop, get_elem?, if◌then◌else◌, is_zero, length, ltb, more, none, ok, panic,
  some, suc, take, zero, ℕ, ◌%◌, ◌*◌, ◌++◌, ◌/◌, ◌>>=◌, ◌^◌,
}
use kudu_rs.ByteOrder.{BigEndian, LittleEndian}
use kudu_rs.Key.Columns.{encode_columns}
use kudu_rs.Row.{Row, VecMap}
use Prim.Native.Nat.{bit_xor}

abbrev pub murmur_m : ℕ
murmur_m = 0xc6a4a7935bd1e995

-- `wrapping_mul` of `u64`
abbrev pub mul_u64 : ℕ → ℕ → ℕ
mul_u64 a b = (a * b) % 2 ^ 64

-- `h ^= h >> r`
abbrev pub xor_shift : ℕ → ℕ
xor_shift h = bit_xor h (h / 2 ^ 47)

unfoldable pub mix : ℕ → ℕ → ℕ
mix h k = mul_u64 (bit_xor h (mul_u64 (xor_shift (mul_u64 k murmur_m)) murmur_m)) murmur_m

-- `data[i] as u64`, which panics out of bounds.
unfoldable pub byte_at : List ℕ → ℕ → Outcome ℕ
byte_at bytes i = elim (get_elem? bytes i) [ none ↦ panic | some b ↦ ok b ]

-- `if len > i { h ^= (data[i] as u64) << (8 * i); }`
unfoldable pub xor_byte : ℕ → List ℕ → ℕ → Outcome ℕ
unfolding byte_at
xor_byte i bytes h =
    if ltb i (length bytes)
    then (byte_at bytes i >>= λ b. ok (bit_xor h (b * 2 ^ (8 * i))))
    else ok h

-- After the loop, with fewer than eight bytes left.
unfoldable pub finish : List ℕ → ℕ → Outcome ℕ
unfolding xor_byte
finish bytes h = do
  h ← xor_byte 6 bytes h
  h ← xor_byte 5 bytes h
  h ← xor_byte 4 bytes h
  h ← xor_byte 3 bytes h
  h ← xor_byte 2 bytes h
  h ← xor_byte 1 bytes h
  h ←
      (if ltb 0 (length bytes)
        then (byte_at bytes 0 >>= λ b. ok (mul_u64 (bit_xor h b) murmur_m))
        else ok h)
  ok (xor_shift (mul_u64 (xor_shift h) murmur_m))

module _ (little_endian : LittleEndian) where
  -- The loop; running out of fuel is shown as a panic.
  unfoldable pub murmur_loop : ℕ → List ℕ → ℕ → Outcome (List ℕ × ℕ)
  unfolding mix
  murmur_loop zero bytes h = panic
  murmur_loop (suc fuel) bytes h =
      let more = (do
        k ← little_endian.read_from_le 8 bytes
        murmur_loop fuel (drop 8 bytes) (mix h k)) in
      if ltb (length bytes) 8 then ok (bytes, h) else more

  -- A round takes eight bytes.
  unfoldable pub murmur2_64 : List ℕ → ℕ → Outcome ℕ
  unfolding murmur_loop finish
  murmur2_64 bytes seed = do
    r ← murmur_loop (suc (length bytes)) bytes (bit_xor seed (mul_u64 (length bytes) murmur_m))
    finish r.0 r.1

pub record HashPartitionSchema : Type 0 where
  pub hash_columns : List ℕ
  pub buckets : ℕ
  pub seed : ℕ

module _ {M : Type 0} (vec_map : VecMap M) (big_endian : BigEndian) (little_endian : LittleEndian)
    (is_utf8 : List ℕ → Bool) where
  -- `%` panics on no buckets; `bucket as u32` keeps the low 32 bits.
  unfoldable pub encode_hash_partition_key : HashPartitionSchema → Row M → List ℕ → Outcome (List ℕ)
  encode_hash_partition_key hash_schema row buf = do
    columns ←
        encode_columns vec_map big_endian little_endian is_utf8 row hash_schema.hash_columns buf
    hash ← murmur2_64 little_endian (drop (length buf) columns) hash_schema.seed
    (if is_zero hash_schema.buckets
        then panic
        else ok
            (take (length buf) columns ++ big_endian.write 4 (hash % hash_schema.buckets % 2 ^ 32)))
