-- ===== src/Key/Hash/Total.antt =====
-- `murmur2_64` of src/key.rs ends on all bytes, and hash partition keys.
use kudu_rs.Base.{
  Bool, List, [], arith, dec_lt, drop, drop-append_length, false, get_elem?-inside, if◌then◌else◌,
  is_zero, length, length-drop, le→ltb_false, ltb, lt→ltb, ok, refl, suc, take-append_length, zero,
  ℕ, ◌%◌, ◌*◌, ◌++◌, ◌+◌, ◌<◌, ◌>>=◌, ◌^◌, ◌∷◌, ◌≡◌, ◌≤◌,
}
use kudu_rs.ByteOrder.{BigEndian, LittleEndian, read_le, to_be}
use kudu_rs.Key.Columns.{encode_columns}
use kudu_rs.Key.Hash.{
  HashPartitionSchema, byte_at, encode_hash_partition_key, finish, mix, mul_u64, murmur2_64,
  murmur_loop, murmur_m, xor_byte, xor_shift,
}
use kudu_rs.Partition.{found}
use kudu_rs.Row.{Row, VecMap}
use Prim.Native.Nat.{bit_xor}
use native.Mathlib.Nat.{mod-lt, mod-eq_of_lt}

xor_byte-ok : (i : ℕ) (bytes : List ℕ) (h : ℕ) → (h' : ℕ) × (xor_byte i bytes h ≡ ok h')
unfolding xor_byte byte_at
xor_byte-ok i bytes h = elim (dec_lt i (length bytes)) [
  | yes inside ↦
      let (b, found) = get_elem?-inside bytes i inside in
      (bit_xor h (b * 2 ^ (8 * i)), rw (lt→ltb i (length bytes) inside, byte_at, found) refl)
  | no outside ↦ (h, rw (le→ltb_false i (length bytes) (omega arith)) refl)
]

-- The bytes of the rest that are read are there.
finish-ok : (bytes : List ℕ) (h : ℕ) → (hash : ℕ) × (finish bytes h ≡ ok hash)
unfolding finish byte_at
finish-ok bytes h =
    let (h6, ok6) = xor_byte-ok 6 bytes h in
    let (h5, ok5) = xor_byte-ok 5 bytes h6 in
    let (h4, ok4) = xor_byte-ok 4 bytes h5 in
    let (h3, ok3) = xor_byte-ok 3 bytes h4 in
    let (h2, ok2) = xor_byte-ok 2 bytes h3 in
    let (h1, ok1) = xor_byte-ok 1 bytes h2 in
    let (h0, ok0) = last_byte bytes h1 in
    (xor_shift (mul_u64 (xor_shift h0) murmur_m), rw (ok6, ok5, ok4, ok3, ok2, ok1, ok0) refl)
  where
    last_byte :
        (bytes : List ℕ) (h : ℕ)
        → (h' : ℕ) × ((if ltb 0 (length bytes)
              then (byte_at bytes 0 >>= λ b. ok (mul_u64 (bit_xor h b) murmur_m))
              else ok h)
            ≡ ok h')
    last_byte [] h = (h, refl)
    last_byte (b ∷ bytes) h =
        (mul_u64 (bit_xor h b) murmur_m, rw (lt→ltb 0 (suc (length bytes)) (omega arith)) refl)

is_zero-pos : (n : ℕ) → 0 < n → is_zero n ≡ false
is_zero-pos zero h = absurd (omega arith)
is_zero-pos (suc n) h = refl

module _ (little_endian : LittleEndian) where
  read_le-ok : (n : ℕ) (bytes : List ℕ) → n ≤ length bytes → (x : ℕ) × (read_le n bytes ≡ ok x)
  unfolding read_le
  read_le-ok zero bytes h = (0, refl)
  read_le-ok (suc n) [] h = absurd (omega arith)
  read_le-ok (suc n) (b ∷ bytes) h =
      let (x, read) = read_le-ok n bytes (omega arith) in (b + 256 * x, rw read refl)

  murmur_loop-ok :
      (fuel : ℕ) (bytes : List ℕ) (h : ℕ)
      → length bytes < fuel
      → (r : List ℕ × ℕ) × (murmur_loop little_endian fuel bytes h ≡ ok r)
  unfolding murmur_loop
  murmur_loop-ok zero bytes h enough = absurd (omega arith)
  murmur_loop-ok (suc fuel) bytes h enough = elim (dec_lt (length bytes) 8) [
    | yes short ↦ ((bytes, h), rw (lt→ltb (length bytes) 8 short) refl)
    | no long ↦
        let (k, read) = read_le-ok 8 bytes (omega arith) in
        let (r, rest) =
          murmur_loop-ok fuel (drop 8 bytes) (mix h k)
            (omega (arith, length-drop 8 bytes, enough)) in
        (
          r,
          rw (le→ltb_false (length bytes) 8 (omega arith), little_endian.reads_le 8 bytes, read)
              rest,
        )
  ]

  -- `murmur2_64` ends without a panic on all bytes and seeds.
  pub murmur2_64-ok :
      (bytes : List ℕ) (seed : ℕ) → (hash : ℕ) × (murmur2_64 little_endian bytes seed ≡ ok hash)
  unfolding murmur2_64
  murmur2_64-ok bytes seed =
      let (r, loop) =
        murmur_loop-ok (suc (length bytes)) bytes (bit_xor seed (mul_u64 (length bytes) murmur_m))
          (omega arith) in
      let (hash, finished) = finish-ok r.0 r.1 in (hash, rw loop finished)

module _ {M : Type 0} (vec_map : VecMap M) (big_endian : BigEndian) (little_endian : LittleEndian)
    (is_utf8 : List ℕ → Bool) where
  -- A hash partition key of columns that can be encoded is four bytes behind the buffer, the
  -- number of a bucket that there is, made of the hash of what the columns are encoded to, where
  -- there are buckets and fewer than 2 ^ 32.
  pub encode_hash_partition_key-bucket :
      (hash_schema : HashPartitionSchema) (row : Row M) (buf code : List ℕ)
      → encode_columns vec_map big_endian little_endian is_utf8 row hash_schema.hash_columns buf
        ≡ ok (buf ++ code)
      → (0 < hash_schema.buckets) × (hash_schema.buckets < 2 ^ 32)
      → (hash bucket : ℕ) × (murmur2_64 little_endian code hash_schema.seed ≡ ok hash)
        × (bucket ≡ hash % hash_schema.buckets)
        × (bucket < hash_schema.buckets)
        × (encode_hash_partition_key vec_map big_endian little_endian is_utf8 hash_schema row buf
            ≡ ok (buf ++ to_be 4 bucket))
  unfolding encode_hash_partition_key
  encode_hash_partition_key-bucket hash_schema row buf code encoded some_buckets =
      let (hash, hashed) = murmur2_64-ok little_endian code hash_schema.seed in
      let small : hash % hash_schema.buckets < hash_schema.buckets = mod-lt hash some_buckets.0 in
      (
        hash,
        hash % hash_schema.buckets,
        hashed,
        refl,
        small,
        rw
            (
              encoded,
              drop-append_length buf code,
              hashed,
              is_zero-pos hash_schema.buckets some_buckets.0,
              take-append_length buf code,
              mod-eq_of_lt (below small some_buckets.1),
              big_endian.writes 4 (hash % hash_schema.buckets),
            )
            refl,
      )
    where
      below : {a b : ℕ} → a < b → b < 2 ^ 32 → a < 2 ^ 32
      below h k = omega (arith, h, k)
