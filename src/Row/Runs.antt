-- ===== src/Row/Runs.antt =====
-- Tests of src/row.rs and witnesses.
use kudu_rs.Base.{
  ==_refl, List, Option, [], arith, err, false, if◌then◌else◌, invalid_argument, ne→==_false, none,
  ok, panic, refl, some, true, ℕ, ◌==◌, ◌>>=◌, ◌∷◌, ◌≡◌, ◌≢◌,
}
use kudu_rs.BitSet.{get, insert, mask, remove, with_capacity}
use kudu_rs.ByteOrder.{LittleEndian, read_le, to_le}
use kudu_rs.Bytes.{eq_bytes}
use kudu_rs.Row.{
  Row, VecMap, check_column_for_read, get_by_name, get_cell, is_row_null, is_row_set, new_row,
  set_cell, set_null,
}
use kudu_rs.Row.Columns.{IsRow}
use kudu_rs.Row.Faults.{get_by_name-not_null, set_cell-option_fixed}
use kudu_rs.Row.Nulls.{new_row-IsRow, new_row-unset, set_null-is_null}
use kudu_rs.Row.SetGet.{CanWrite, set_cell-get_cell}
use kudu_rs.Schema.{Column, Schema, builder, column_index, lookup, new}
use kudu_rs.Schema.Layout.{LaidOut, new-LaidOut, width}
use kudu_rs.Types.{DataType, binary, eq_data_type, int32, int64, size, variant}
use kudu_rs.Value.{Value, bytes_value, i32_value, i64_value, option_value}
use kudu_rs.Value.Lawful.{i32_value-IsLawful, i64_value-IsLawful}

-- A map as a function, and the byte order, as their documentation has them.
abbrev pub bytes_by_index : VecMap (ℕ → Option (List ℕ))
bytes_by_index = record {
  empty = λ i. none;
  put = λ m i v j. if i == j then some v else m j;
  delete = λ m i j. if i == j then none else m j;
  find = λ m i. m i;
  find-empty = λ i. refl;
  find-put_self = λ m i v. rw (==_refl i) refl;
  find-put_ne = λ m i j v ne. rw (ne→==_false i j ne) refl;
  find-delete_ne = λ m i j ne. rw (ne→==_false i j ne) refl;
}

abbrev pub low_first : LittleEndian
low_first = record {
  write_le = to_le;
  read_from_le = read_le;
  writes_le = λ n x. refl;
  reads_le = λ n bytes. refl;
}

abbrev three_columns : List Column
three_columns =
    record (builder (107 ∷ []) int32) { is_nullable = false }
    ∷ builder (98 ∷ []) binary
    ∷ builder (110 ∷ []) int64
    ∷ []

abbrev three_schema : Schema
three_schema = new three_columns 1

abbrev three_row : Row (ℕ → Option (List ℕ))
three_row = new_row bytes_by_index three_schema

row_code : Unit {0}
unfolding size variant i64_value set_cell get_cell option_value i32_value bytes_value with_capacity
    insert remove mask get to_le read_le eq_data_type new new_row builder
row_code = tt

-- 258 in the first column, and a second column that is set.
write_and_read :
    (set_cell bytes_by_index (i32_value low_first) three_row 0 258 >>= λ r.
    set_cell bytes_by_index bytes_value r 1 (7 ∷ []) >>= λ r.
    get_cell bytes_by_index (i32_value low_first) r 0)
    ≡ ok 258
unfolding row_code
write_and_read = refl

-- `Some(5)` in a nullable column of 64-bit integers.
write_some :
    set_cell bytes_by_index (option_value (i64_value low_first)) three_row 2 (some 5) ≡ panic
unfolding row_code
write_some = refl

three-LaidOut : LaidOut three_columns three_schema
unfolding builder
three-LaidOut = new-LaidOut three_columns 1 (unfold width size in omega arith)

three_row-IsRow : IsRow three_columns three_row
three_row-IsRow = new_row-IsRow bytes_by_index three_columns three_schema three-LaidOut

CanWrite-first : CanWrite bytes_by_index three_columns 0 (i32_value low_first)
unfolding i32_value eq_data_type variant builder
CanWrite-first = record {
  column = record (builder (107 ∷ []) int32) { is_nullable = false };
  at_index = refl;
  has_type = refl;
  allows_null = λ e. cc;
}

CanWrite-some : CanWrite bytes_by_index three_columns 2 (option_value (i64_value low_first))
unfolding i64_value option_value eq_data_type variant builder
CanWrite-some = record {
  column = builder (110 ∷ []) int64;
  at_index = refl;
  has_type = refl;
  allows_null = λ e. refl;
}

new_row-unset_example :
    IsRow three_columns (new_row bytes_by_index three_schema)
    × (get_cell bytes_by_index bytes_value (new_row bytes_by_index three_schema) 1
        ≡ err invalid_argument)
new_row-unset_example =
    new_row-unset bytes_by_index three_columns bytes_value three_schema 1 three-LaidOut

set_cell-get_cell_example :
    (r' : Row (ℕ → Option (List ℕ))) × (set_cell bytes_by_index
        (i32_value low_first)
        three_row
        0
        258
      ≡ ok r')
    × IsRow three_columns r'
    × (get_cell bytes_by_index (i32_value low_first) r' 0
        ≡ (check_column_for_read three_row 0 (i32_value low_first) >>= λ _. ok 258))
    × ((W : Type 0) (U : Value W) (j : ℕ)
        → ((t : DataType) → U.can_read_from t ≡ true → size t ≡ U.value_size)
        → 0 ≢ j
        → get_cell bytes_by_index U r' j ≡ get_cell bytes_by_index U three_row j)
set_cell-get_cell_example =
    set_cell-get_cell bytes_by_index three_columns 0 (i32_value low_first) 258 three_row
      three_row-IsRow CanWrite-first (i32_value-IsLawful low_first 258 (omega arith))

set_null-is_null_example :
    (r' : Row (ℕ → Option (List ℕ))) × (set_null bytes_by_index three_row 2 ≡ ok r')
    × IsRow three_columns r'
    × (is_row_null r' 2 ≡ ok true)
    × (is_row_set r' 2 ≡ ok true)
    × ((W : Type 0) (U : Value W) (j : ℕ)
        → ((t : DataType) → U.can_read_from t ≡ true → size t ≡ U.value_size)
        → 2 ≢ j
        → get_cell bytes_by_index U r' j ≡ get_cell bytes_by_index U three_row j)
unfolding builder
set_null-is_null_example =
    set_null-is_null bytes_by_index three_columns three_row 2 (builder (110 ∷ []) int64)
      three_row-IsRow refl refl

set_cell-option_fixed_example :
    set_cell bytes_by_index (option_value (i64_value low_first)) three_row 2 (some 5) ≡ panic
unfolding i64_value size
set_cell-option_fixed_example =
    set_cell-option_fixed bytes_by_index three_columns (i64_value low_first) 2 5 three_row
      three_row-IsRow CanWrite-some refl
      (i64_value-IsLawful low_first 5 (omega arith)).size_of_column

get_by_name-not_null_example :
    get_by_name bytes_by_index (i32_value low_first) three_row (107 ∷ []) ≡ err invalid_argument
unfolding row_code eq_bytes column_index lookup
get_by_name-not_null_example =
    get_by_name-not_null bytes_by_index three_columns (i32_value low_first) (107 ∷ []) 0
      (record (builder (107 ∷ []) int32) { is_nullable = false }) three_row refl refl refl
