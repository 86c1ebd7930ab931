-- ===== src/Key/Hash/Runs.antt =====
-- Tests of the hash of src/key.rs and witnesses.
use kudu_rs.Base.{All, List, [], arith, ok, refl, ℕ, ◌%◌, ◌<◌, ◌∷◌, ◌≡◌}
use kudu_rs.Base.Words.{IsByte}
use kudu_rs.BitSet.{get, mask}
use kudu_rs.ByteOrder.{read_le, to_be, to_le}
use kudu_rs.Key.Columns.{encode_columns}
use kudu_rs.Key.Hash.{
  HashPartitionSchema, byte_at, encode_hash_partition_key, finish, mix, murmur2_64, murmur_loop,
  xor_byte,
}
use kudu_rs.Key.Hash.Reference.{hash_words, murmur_hash, number}
use kudu_rs.Key.Hash.Total.{encode_hash_partition_key-bucket}
use kudu_rs.Key.Hash.Words.{murmur2_64-murmur_hash}
use kudu_rs.Key.Ints.{encode_int}
use kudu_rs.Key.Runs.{any_utf8, bytes_in_order, key_low_first, key_map, key_row}
use kudu_rs.Row.{get_cell}
use kudu_rs.Schema.{new}
use kudu_rs.Types.{eq_data_type, size}
use kudu_rs.Value.{i32_value}

hash_code : Unit {0}
unfolding murmur2_64 murmur_loop mix finish xor_byte byte_at read_le murmur_hash hash_words number
hash_code = tt

-- The tests of src/key.rs: "ab", "abcdefg" and "quick brown fox".
hash_ab : murmur2_64 key_low_first (97 ∷ 98 ∷ []) 0 ≡ ok 7115271465109541368
unfolding hash_code
hash_ab = refl

hash_abcdefg :
    murmur2_64 key_low_first (97 ∷ 98 ∷ 99 ∷ 100 ∷ 101 ∷ 102 ∷ 103 ∷ []) 0 ≡ ok 2601573339036254301
unfolding hash_code
hash_abcdefg = refl

abbrev quick_brown_fox : List ℕ
quick_brown_fox =
    113 ∷ 117 ∷ 105 ∷ 99 ∷ 107 ∷ 32 ∷ 98 ∷ 114 ∷ 111 ∷ 119 ∷ 110 ∷ 32 ∷ 102 ∷ 111 ∷ 120 ∷ []

hash_quick_brown_fox : murmur2_64 key_low_first quick_brown_fox 42 ≡ ok 3575930248840144026
unfolding hash_code
hash_quick_brown_fox = refl

-- The reference agrees with the test of "quick brown fox".
reference_quick_brown_fox : murmur_hash quick_brown_fox 42 ≡ 3575930248840144026
unfolding hash_code
reference_quick_brown_fox = refl

quick_brown_fox-IsByte : All IsByte quick_brown_fox
quick_brown_fox-IsByte = ground arith

murmur2_64-murmur_hash_example :
    murmur2_64 key_low_first quick_brown_fox 42 ≡ ok (murmur_hash quick_brown_fox 42)
murmur2_64-murmur_hash_example =
    murmur2_64-murmur_hash key_low_first quick_brown_fox 42 quick_brown_fox-IsByte

-- The integer of the row in one of three buckets.
abbrev three_buckets : HashPartitionSchema
three_buckets = record { hash_columns = 1 ∷ []; buckets = 3; seed = 7 }

encode_hash_partition_key-bucket_example :
    (hash bucket : ℕ) × (murmur2_64 key_low_first (128 ∷ 0 ∷ 0 ∷ 99 ∷ []) 7 ≡ ok hash)
    × (bucket ≡ hash % 3)
    × (bucket < 3)
    × (encode_hash_partition_key key_map bytes_in_order key_low_first any_utf8 three_buckets key_row
          (9 ∷ [])
        ≡ ok (9 ∷ to_be 4 bucket))
unfolding encode_columns size i32_value get_cell mask get to_be read_le encode_int eq_data_type new
    to_le
encode_hash_partition_key-bucket_example =
    encode_hash_partition_key-bucket key_map bytes_in_order key_low_first any_utf8 three_buckets
      key_row (9 ∷ []) (128 ∷ 0 ∷ 0 ∷ 99 ∷ []) refl (omega arith, omega arith)
