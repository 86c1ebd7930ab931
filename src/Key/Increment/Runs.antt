-- ===== src/Key/Increment/Runs.antt =====
-- Tests of the increments of src/key.rs and witnesses.
use kudu_rs.Base.{
  Bool, List, Option, [], arith, false, inl, none, ok, panic, refl, true, ℕ, ◌>>=◌, ◌∷◌, ◌≡◌,
}
use kudu_rs.BitSet.{get, insert, mask, remove}
use kudu_rs.ByteOrder.{read_le, to_le}
use kudu_rs.Bytes.{eq_bytes}
use kudu_rs.Key.Increment.{increment_cell, is_cell_incremented}
use kudu_rs.Key.Increment.Cells.{SameOthers, increment_cell-string, is_cell_incremented-int64}
use kudu_rs.Key.Increment.Ints.{HoldsInt, increment_cell-int}
use kudu_rs.Key.Runs.{key_columns, key_low_first, key_map, key_row, key_row-IsRow, zero_inside}
use kudu_rs.Row.{Row, get_cell, is_row_null, is_row_set, set_cell}
use kudu_rs.Row.Columns.{IsRow}
use kudu_rs.Schema.{Column, new}
use kudu_rs.Schema.Equality.{eq_schema, eq_schema_self}
use kudu_rs.Schema.Layout.{new-LaidOut, width}
use kudu_rs.Types.{auto, default_compression, eq_data_type, int64, size, variant}
use kudu_rs.Value.{bytes_value, i32_value, i64_value}

-- Floats are not in the rows below.
abbrev no_float : ℕ → ℕ
no_float x = x

increment_code : Unit {0}
unfolding is_row_set is_row_null increment_cell is_cell_incremented get_cell set_cell new size
    variant eq_data_type get insert remove mask to_le read_le i32_value i64_value bytes_value
    eq_schema eq_bytes
increment_code = tt

increment_99 :
    (increment_cell key_map key_low_first no_float no_float key_row 1 >>= λ r.
    get_cell key_map (i32_value key_low_first) r.0 1)
    ≡ ok 100
unfolding increment_code
increment_99 = refl

increment_cell-string_example :
    increment_cell key_map key_low_first no_float no_float key_row 0 ≡ panic
unfolding increment_code
increment_cell-string_example =
    increment_cell-string key_map key_low_first no_float no_float key_columns 0 _ refl zero_inside
      key_row key_row-IsRow (refl, refl) refl refl

abbrev long_columns : List Column
long_columns =
    record {
      name = 97 ∷ [];
      data_type = int64;
      is_nullable = false;
      compression = default_compression;
      encoding = auto;
      block_size = 0;
    }
    ∷ []

abbrev long_row : ℕ → Row (ℕ → Option (List ℕ))
long_row x = record {
  row_data = x ∷ 0 ∷ 0 ∷ 0 ∷ 0 ∷ 0 ∷ 0 ∷ 0 ∷ [];
  row_indirect_data = λ i. none;
  set_columns = 1 ∷ [];
  null_columns = [];
  schema = new long_columns 1;
}

long_row-IsRow : (x : ℕ) → IsRow long_columns (long_row x)
unfolding new size
long_row-IsRow x = record {
  laid_out = new-LaidOut long_columns 1 (unfold width size in omega arith);
  data_room = refl;
  set_room = omega arith;
  null_room = λ e. cc;
}

-- 5 and 6 in an `Int64` column
is_cell_incremented-int64_example :
    is_cell_incremented key_map key_low_first no_float no_float (long_row 5) (long_row 6) 0 ≡ panic
unfolding increment_code
is_cell_incremented-int64_example =
    is_cell_incremented-int64 key_map key_low_first no_float no_float long_columns 0 _ refl
      (long_row 5) (long_row 6) (long_row-IsRow 5) ((refl, refl), (refl, refl))
      (eq_schema_self (new long_columns 1)) (inl refl)

-- 255 in an `Int64` column
increment_cell-int_example :
    (r' : Row (ℕ → Option (List ℕ))) × (incremented : Bool) × (increment_cell key_map key_low_first
        no_float no_float
        (long_row 255)
        0
      ≡ ok (r', incremented))
    × IsRow long_columns r'
    × (incremented ≡ true)
    × HoldsInt key_map key_low_first 0 int64 r' 256
    × SameOthers key_map key_low_first no_float no_float long_columns 0 _ refl (long_row 255) r'
unfolding increment_code HoldsInt
increment_cell-int_example =
    increment_cell-int key_map key_low_first no_float no_float long_columns 0 _ refl 255
      (long_row 255) (long_row-IsRow 255) (refl, refl) refl
