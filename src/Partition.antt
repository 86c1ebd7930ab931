-- ===== src/Partition.antt =====
-- src/partition.rs: the partitions of a table, and how they are read from messages.
use kudu_rs.Base.{
  Bool, List, Option, Outcome, [], drop, err, if◌then◌else◌, length, ltb, none, ok, panic,
  serialization, some, ℕ, ◌&&◌, ◌*◌, ◌+◌, ◌==◌, ◌>>=◌, ◌∷◌,
}
use kudu_rs.ByteOrder.{BigEndian, LittleEndian}
use kudu_rs.Bytes.{eq_bytes}
use kudu_rs.Key.Columns.{is_empty_key}
use kudu_rs.Key.Hash.{HashPartitionSchema}
use kudu_rs.Key.Partitions.{PartitionSchema, decode_range_partition_key}
use kudu_rs.Row.{Row, VecMap, new_row}
use kudu_rs.Schema.{Schema, lookup}

-- What `ColumnSchemaPB` and `ColumnIdentifierPB` have of a name and an id.
pub record ColumnIdentifier : Type 0 where
  pub identifier_name : Option (List ℕ)
  pub identifier_id : Option ℕ

pub record HashBucketSchemaPb : Type 0 where
  pub pb_hash_columns : List ColumnIdentifier
  pub pb_num_buckets : ℕ
  pub pb_seed : ℕ

pub record PartitionSchemaPb : Type 0 where
  pub pb_range_columns : List ColumnIdentifier
  pub pb_hash_bucket_schemas : List HashBucketSchemaPb

-- The hash maps of a schema's columns, as the lists of their insertions, the latest first.
unfoldable pub columns_by :
    List ColumnIdentifier
    → ℕ
    → List (List ℕ × ℕ)
    → List (ℕ × ℕ)
    → Outcome (List (List ℕ × ℕ) × List (ℕ × ℕ))
columns_by [] idx by_name by_id = ok (by_name, by_id)
columns_by (c ∷ cs) idx by_name by_id = elim c.identifier_name [
  | none ↦ panic
  | some name ↦ elim c.identifier_id [
    | none ↦ panic
    | some id ↦ columns_by cs (idx + 1) ((name, idx) ∷ by_name) ((id, idx) ∷ by_id)
  ]
]

unfoldable pub lookup_id : ℕ → List (ℕ × ℕ) → Option ℕ
lookup_id id [] = none
lookup_id id ((i, idx) ∷ rest) = if i == id then some idx else lookup_id id rest

-- Indexing a map panics on a missing key.
unfoldable pub found : Option ℕ → Outcome ℕ
found none = panic
found (some idx) = ok idx

unfoldable pub column_to_id : List (List ℕ × ℕ) → List (ℕ × ℕ) → ColumnIdentifier → Outcome ℕ
unfolding lookup_id found
column_to_id by_name by_id column = elim column.identifier_id [
  | some id ↦ found (lookup_id id by_id)
  | none ↦ elim column.identifier_name [ some name ↦ found (lookup name by_name) | none ↦ panic ]
]

unfoldable pub columns_to_ids :
    List (List ℕ × ℕ) → List (ℕ × ℕ) → List ColumnIdentifier → Outcome (List ℕ)
unfolding column_to_id
columns_to_ids by_name by_id [] = ok []
columns_to_ids by_name by_id (c ∷ cs) = do
  idx ← column_to_id by_name by_id c
  idxs ← columns_to_ids by_name by_id cs
  ok (idx ∷ idxs)

-- The casts keep the bits of an `i32`.
unfoldable pub hash_schemas_from_pb :
    List (List ℕ × ℕ) → List (ℕ × ℕ) → List HashBucketSchemaPb → Outcome (List HashPartitionSchema)
unfolding columns_to_ids
hash_schemas_from_pb by_name by_id [] = ok []
hash_schemas_from_pb by_name by_id (h ∷ hs) = do
  columns ← columns_to_ids by_name by_id h.pb_hash_columns
  rest ← hash_schemas_from_pb by_name by_id hs
  ok (record { hash_columns = columns; buckets = h.pb_num_buckets; seed = h.pb_seed } ∷ rest)

unfoldable pub partition_schema_from_pb :
    PartitionSchemaPb → List ColumnIdentifier → Outcome PartitionSchema
unfolding columns_by hash_schemas_from_pb
partition_schema_from_pb pb columns = do
  maps ← columns_by columns 0 [] []
  range ← columns_to_ids maps.0 maps.1 pb.pb_range_columns
  hash ← hash_schemas_from_pb maps.0 maps.1 pb.pb_hash_bucket_schemas
  ok (record {
    range_partition_schema = record { range_columns = range };
    hash_partition_schemas = hash;
  })

pub record PartitionPb : Type 0 where
  pub pb_partition_key_start : List ℕ
  pub pb_partition_key_end : List ℕ

pub record Partition (M : Type 0) : Type 0 where
  pub partition_schema : PartitionSchema
  pub lower_bound_key : List ℕ
  pub upper_bound_key : List ℕ
  pub hash_partitions : List ℕ
  pub range_lower_bound : Row M
  pub range_upper_bound : Row M

unfoldable pub eq_partition : {M : Type 0} → Partition M → Partition M → Bool
eq_partition a b =
    eq_bytes a.lower_bound_key b.lower_bound_key && eq_bytes a.upper_bound_key b.upper_bound_key

module _ {M : Type 0} (vec_map : VecMap M) (big_endian : BigEndian) (little_endian : LittleEndian)
    (is_utf8 : List ℕ → Bool) where
  -- The buckets at the start of a partition key, one for each hash partition.
  unfoldable pub read_buckets : List HashPartitionSchema → List ℕ → Outcome (List ℕ)
  read_buckets [] key = ok []
  read_buckets (h ∷ hs) key =
      let none_left = (do rest ← read_buckets hs key; ok (0 ∷ rest)) in
      let next = (do
        bucket ← big_endian.read 4 key
        rest ← read_buckets hs (drop 4 key)
        ok (bucket ∷ rest)) in
      if is_empty_key key then none_left else if ltb (length key) 4 then err serialization else next

  -- The row of the range key behind the buckets, or an empty row if there is none.
  unfoldable pub read_range_bound : Schema → PartitionSchema → List ℕ → Outcome (Row M)
  read_range_bound primary_key_schema partition_schema key =
      let at = length partition_schema.hash_partition_schemas * 4 in
      if ltb at (length key)
      then decode_range_partition_key vec_map big_endian little_endian is_utf8 primary_key_schema
          partition_schema.range_partition_schema (drop at key)
      else ok (new_row vec_map primary_key_schema)

  unfoldable pub partition_from_pb : Schema → PartitionSchema → PartitionPb → Outcome (Partition M)
  unfolding read_buckets read_range_bound
  partition_from_pb primary_key_schema partition_schema pb = do
    let lower = pb.pb_partition_key_start
    let upper = pb.pb_partition_key_end
    buckets ← read_buckets partition_schema.hash_partition_schemas lower
    lower_row ← read_range_bound primary_key_schema partition_schema lower
    upper_row ← read_range_bound primary_key_schema partition_schema upper
    ok (record {
      partition_schema = partition_schema;
      lower_bound_key = lower;
      upper_bound_key = upper;
      hash_partitions = buckets;
      range_lower_bound = lower_row;
      range_upper_bound = upper_row;
    })
