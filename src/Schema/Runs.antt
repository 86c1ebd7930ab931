-- ===== src/Schema/Runs.antt =====
-- Tests of src/schema.rs and witnesses.
use kudu_rs.Base.{List, [], arith, false, ok, refl, some, true, ◌∷◌, ◌≡◌}
use kudu_rs.Bytes.{eq_bytes}
use kudu_rs.Schema.{
  Column, SchemaBuilder, as_pb, build, column_index, from_pb, lookup, new, position_name, remove_at,
}
use kudu_rs.Schema.Build.{BuiltSchema, build-BuiltSchema}
use kudu_rs.Schema.Layout.{LaidOut, new-LaidOut, width}
use kudu_rs.Schema.Names.{LastNamed, column_index-LastNamed}
use kudu_rs.Schema.Pb.{from_pb-as_pb}
use kudu_rs.Types.{auto, bit_shuffle, default_compression, int32, lz4, size, string}

-- "key" and "val", of `simple_schema`.
abbrev key_column : Column
key_column = record {
  name = 107 ∷ 101 ∷ 121 ∷ [];
  data_type = string;
  is_nullable = false;
  compression = default_compression;
  encoding = auto;
  block_size = 0;
}

abbrev val_column : Column
val_column = record {
  name = 118 ∷ 97 ∷ 108 ∷ [];
  data_type = int32;
  is_nullable = true;
  compression = lz4;
  encoding = bit_shuffle;
  block_size = 4096;
}

abbrev two_columns : List Column
two_columns = key_column ∷ val_column ∷ []

abbrev val_key : SchemaBuilder
val_key = record { builder_columns = two_columns; builder_primary_key = (118 ∷ 97 ∷ 108 ∷ []) ∷ [] }

build-val_key : build val_key ≡ ok (new (val_column ∷ key_column ∷ []) 1)
unfolding build position_name remove_at eq_bytes
build-val_key = refl

build-BuiltSchema_example : BuiltSchema val_key (build val_key)
build-BuiltSchema_example = build-BuiltSchema val_key

from_pb-as_pb_example : from_pb (as_pb (new two_columns 1)) ≡ ok (new two_columns 1)
from_pb-as_pb_example = from_pb-as_pb two_columns 1 (omega arith)

new-LaidOut_example : LaidOut two_columns (new two_columns 1)
new-LaidOut_example = new-LaidOut two_columns 1 (unfold width size in omega arith)

column_index_val : column_index (new two_columns 1) (118 ∷ 97 ∷ 108 ∷ []) ≡ some 1
unfolding column_index new eq_bytes lookup
column_index_val = refl

column_index-LastNamed_example :
    LastNamed
      (118 ∷ 97 ∷ 108 ∷ [])
      two_columns
      (column_index (new two_columns 1) (118 ∷ 97 ∷ 108 ∷ []))
column_index-LastNamed_example = column_index-LastNamed (118 ∷ 97 ∷ 108 ∷ []) two_columns 1
