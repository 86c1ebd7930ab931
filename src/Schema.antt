-- ===== src/Schema.antt =====
-- src/schema.rs: the columns of a table and their layout in a row. A name is its list of bytes; the
-- hash map from names to indexes is the list of its insertions, the latest first.
pub mod Pb
pub mod Layout
pub mod Build
pub mod Names
pub mod Equality
pub mod Runs
use kudu_rs.Base.{
  Bool, List, Option, Outcome, [], err, false, get_elem?, if◌then◌else◌, invalid_argument, leb,
  length, ltb, none, ok, panic, some, suc, take, true, zero, ℕ, ◌++◌, ◌+◌, ◌>>=◌, ◌||◌, ◌∷◌,
}
use kudu_rs.Base.Words.{add_usize}
use kudu_rs.Bytes.{eq_bytes}
use kudu_rs.Types.{
  CompressionType, CompressionTypePb, DataType, DataTypePb, EncodingType, EncodingTypePb, auto,
  compression_from_pb, compression_to_pb, data_type_from_pb, data_type_to_pb, default_compression,
  encoding_from_pb, encoding_to_pb, size,
}

pub record Column : Type 0 where
  pub name : List ℕ
  pub data_type : DataType
  pub is_nullable : Bool
  pub compression : CompressionType
  pub encoding : EncodingType
  pub block_size : ℕ

unfoldable pub block_size_option : Column → Option ℕ
block_size_option c = if leb c.block_size 0 then none else some c.block_size

unfoldable pub builder : List ℕ → DataType → Column
builder name data_type = record {
  name = name;
  data_type = data_type;
  is_nullable = true;
  compression = default_compression;
  encoding = auto;
  block_size = 0;
}

unfoldable pub set_nullable : Column → Column
set_nullable c = record c { is_nullable = true }

unfoldable pub set_not_null : Column → Column
set_not_null c = record c { is_nullable = false }

unfoldable pub set_encoding : Column → EncodingType → Column
set_encoding c encoding = record c { encoding = encoding }

unfoldable pub set_compression : Column → CompressionType → Column
set_compression c compression = record c { compression = compression }

unfoldable pub set_block_size : Column → ℕ → Column
set_block_size c block_size = record c { block_size = block_size }

-- The fields of the generated `ColumnSchemaPB`, as its getters return them. The block size is an
-- `i32`, shown by its two's complement pattern, so that the casts from and to `u32` keep it.
pub record ColumnSchemaPb : Type 0 where
  pub pb_name : List ℕ
  pub pb_field_type : DataTypePb
  pub pb_is_nullable : Bool
  pub pb_is_key : Bool
  pub pb_encoding : EncodingTypePb
  pub pb_compression : CompressionTypePb
  pub pb_cfile_block_size : ℕ

unfoldable pub column_to_pb : Column → Bool → ColumnSchemaPb
column_to_pb c is_key = record {
  pb_name = c.name;
  pb_field_type = data_type_to_pb c.data_type;
  pb_is_nullable = c.is_nullable;
  pb_is_key = is_key;
  pb_encoding = encoding_to_pb c.encoding;
  pb_compression = compression_to_pb c.compression;
  pb_cfile_block_size = c.block_size;
}

unfoldable pub column_from_pb : ColumnSchemaPb → Outcome Column
column_from_pb pb = do
  data_type ← data_type_from_pb pb.pb_field_type
  compression ← compression_from_pb pb.pb_compression
  encoding ← encoding_from_pb pb.pb_encoding
  ok (record {
    name = pb.pb_name;
    data_type = data_type;
    is_nullable = pb.pb_is_nullable;
    compression = compression;
    encoding = encoding;
    block_size = pb.pb_cfile_block_size;
  })

-- `Inner`. A `Schema` is a shared reference to it.
pub record Schema : Type 0 where
  pub columns : List Column
  pub columns_by_name : List (List ℕ × ℕ)
  pub column_offsets : List ℕ
  pub num_primary_key_columns : ℕ
  pub row_size : ℕ
  pub has_nullable_columns : Bool

-- The loop of `Schema::new`, at index `idx`, over the columns that are left.
unfoldable pub new_loop : ℕ → List Column → Schema → Schema
new_loop idx [] s = s
new_loop idx (c ∷ cs) s = new_loop (suc idx) cs (record s {
  columns_by_name = (c.name, idx) ∷ s.columns_by_name;
  column_offsets = s.column_offsets ++ s.row_size ∷ [];
  row_size = add_usize s.row_size (size c.data_type);
  has_nullable_columns = s.has_nullable_columns || c.is_nullable;
})

-- Before the loop.
abbrev pub start : List Column → ℕ → Schema
start columns num_primary_key_columns = record {
  columns = columns;
  columns_by_name = [];
  column_offsets = [];
  num_primary_key_columns = num_primary_key_columns;
  row_size = 0;
  has_nullable_columns = false;
}

unfoldable pub new : List Column → ℕ → Schema
unfolding new_loop
new columns num_primary_key_columns = new_loop 0 columns (start columns num_primary_key_columns)

unfoldable pub lookup : List ℕ → List (List ℕ × ℕ) → Option ℕ
lookup name [] = none
lookup name ((n, idx) ∷ rest) = if eq_bytes n name then some idx else lookup name rest

unfoldable pub column_index : Schema → List ℕ → Option ℕ
unfolding lookup
column_index s name = lookup name s.columns_by_name

-- `&columns[idx]` panics out of bounds.
unfoldable pub column_by_name : Schema → List ℕ → Outcome (Option Column)
unfolding column_index
column_by_name s name = elim (column_index s name) [
  | none ↦ ok none
  | some idx ↦ elim (get_elem? s.columns idx) [ none ↦ panic | some c ↦ ok (some c) ]
]

-- `&columns[0..n]` panics if there are fewer than `n`.
unfoldable pub primary_key : Schema → Outcome (List Column)
primary_key s =
    if leb s.num_primary_key_columns (length s.columns)
    then ok (take s.num_primary_key_columns s.columns)
    else panic

unfoldable pub primary_key_projection : Schema → Outcome Schema
unfolding primary_key new
primary_key_projection s = do columns ← primary_key s; ok (new columns s.num_primary_key_columns)

-- `as_pb` from index `idx`.
unfoldable pub as_pb_loop : ℕ → ℕ → List Column → List ColumnSchemaPb
unfolding column_to_pb
as_pb_loop num idx [] = []
as_pb_loop num idx (c ∷ cs) = column_to_pb c (ltb idx num) ∷ as_pb_loop num (suc idx) cs

unfoldable pub as_pb : Schema → List ColumnSchemaPb
unfolding as_pb_loop
as_pb s = as_pb_loop s.num_primary_key_columns 0 s.columns

-- The loop of `from_pb`: the key columns counted so far and the columns converted.
unfoldable pub from_pb_loop : ℕ → List Column → List ColumnSchemaPb → Outcome (List Column × ℕ)
unfolding column_from_pb
from_pb_loop num columns [] = ok (columns, num)
from_pb_loop num columns (pb ∷ pbs) = do
  column ← column_from_pb pb
  from_pb_loop (if pb.pb_is_key then num + 1 else num) (columns ++ column ∷ []) pbs

unfoldable pub from_pb : List ColumnSchemaPb → Outcome Schema
unfolding from_pb_loop new
from_pb pbs = do r ← from_pb_loop 0 [] pbs; ok (new r.0 r.1)

-- `SchemaBuilder`. Its `range_partition_columns` are never read.
pub record SchemaBuilder : Type 0 where
  pub builder_columns : List Column
  pub builder_primary_key : List (List ℕ)

unfoldable pub new_builder : SchemaBuilder
new_builder = record { builder_columns = []; builder_primary_key = [] }

unfoldable pub add_column : SchemaBuilder → Column → SchemaBuilder
add_column b c = record b { builder_columns = b.builder_columns ++ c ∷ [] }

unfoldable pub set_primary_key : SchemaBuilder → List (List ℕ) → SchemaBuilder
set_primary_key b names = record b { builder_primary_key = names }

-- `columns.iter().position(|col| col.name() == column_name)`
unfoldable pub position_name : List ℕ → List Column → Option ℕ
position_name name [] = none
position_name name (c ∷ cs) =
    let rest = position_name name cs in
    if eq_bytes c.name name then some 0 else elim rest [ none ↦ none | some i ↦ some (suc i) ]

-- `Vec::remove`
unfoldable pub remove_at : ℕ → List Column → List Column
remove_at i [] = []
remove_at zero (c ∷ cs) = cs
remove_at (suc i) (c ∷ cs) = c ∷ remove_at i cs

-- The loop of `build`: the names that are left, the columns moved so far and the builder's columns.
-- `Vec::remove` panics out of bounds.
unfoldable pub build_loop :
    List (List ℕ) → List Column → List Column → Outcome (List Column × List Column)
unfolding position_name remove_at
build_loop [] columns rest = ok (columns, rest)
build_loop (name ∷ names) columns rest = elim (position_name name rest) [
  | none ↦ err invalid_argument
  | some idx ↦ elim (get_elem? rest idx) [
    | none ↦ panic
    | some c ↦ build_loop names (columns ++ c ∷ []) (remove_at idx rest)
  ]
]

unfoldable pub build : SchemaBuilder → Outcome Schema
unfolding build_loop new
build b = elim b.builder_primary_key [
  | [] ↦ err invalid_argument
  | name ∷ names ↦ do
    r ← build_loop (name ∷ names) [] b.builder_columns
    ok (new (r.0 ++ r.1) (length (name ∷ names)))
]
