-- ===== src/Key/Partitions.antt =====
-- Partition keys of src/key.rs: the keys of the hash partitions, then that of the range partition; and
-- the partition schema of src/partition.rs.
use kudu_rs.Base.{
  Bool, List, Outcome, [], err, get_or, if◌then◌else◌, is_zero, length, ok, serialization, ℕ, ◌-◌,
  ◌==◌, ◌>>=◌, ◌∷◌,
}
use kudu_rs.ByteOrder.{BigEndian, LittleEndian}
use kudu_rs.Key.Columns.{decode_column, encode_columns, is_empty_key}
use kudu_rs.Key.Hash.{HashPartitionSchema, encode_hash_partition_key}
use kudu_rs.Row.{Row, VecMap, new_row}
use kudu_rs.Schema.{Schema}

pub record RangePartitionSchema : Type 0 where
  pub range_columns : List ℕ

pub record PartitionSchema : Type 0 where
  pub range_partition_schema : RangePartitionSchema
  pub hash_partition_schemas : List HashPartitionSchema

module _ {M : Type 0} (vec_map : VecMap M) (big_endian : BigEndian) (little_endian : LittleEndian)
    (is_utf8 : List ℕ → Bool) where
  unfoldable pub encode_range_partition_key :
      RangePartitionSchema → Row M → List ℕ → Outcome (List ℕ)
  encode_range_partition_key range_schema row buf =
      encode_columns vec_map big_endian little_endian is_utf8 row range_schema.range_columns buf

  -- The loop of `encode_partition_key` over the hash partitions.
  unfoldable pub encode_hash_keys : List HashPartitionSchema → Row M → List ℕ → Outcome (List ℕ)
  encode_hash_keys [] row buf = ok buf
  encode_hash_keys (hash_schema ∷ rest) row buf = do
    buf ← encode_hash_partition_key vec_map big_endian little_endian is_utf8 hash_schema row buf
    encode_hash_keys rest row buf

  unfoldable pub encode_partition_key : PartitionSchema → Row M → Outcome (List ℕ)
  unfolding encode_hash_keys encode_range_partition_key
  encode_partition_key partition_schema row = do
    buf ← encode_hash_keys partition_schema.hash_partition_schemas row []
    encode_range_partition_key partition_schema.range_partition_schema row buf

  -- The loop of `decode_range_partition_key`, which an empty key ends.
  unfoldable pub decode_range_columns : ℕ → List ℕ → Row M → List ℕ → Outcome (Row M × List ℕ)
  decode_range_columns last_idx [] row key = ok (row, key)
  decode_range_columns last_idx (idx ∷ idxs) row key =
      let rest = (do
        r ← decode_column vec_map big_endian little_endian is_utf8 row idx (idx == last_idx) key
        decode_range_columns last_idx idxs r.0 r.1) in
      if is_empty_key key then ok (row, key) else rest

  unfoldable pub decode_range_partition_key :
      Schema → RangePartitionSchema → List ℕ → Outcome (Row M)
  unfolding decode_range_columns
  decode_range_partition_key schema range_schema key =
      let row = new_row vec_map schema in
      let columns = range_schema.range_columns in
      let last_idx = get_or columns (length columns - 1) 0 in
      if is_zero (length columns) then ok row else (do
        r ← decode_range_columns last_idx columns row key
        (if is_empty_key r.1 then ok r.0 else err serialization))
