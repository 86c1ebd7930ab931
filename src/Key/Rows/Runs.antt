-- ===== src/Key/Rows/Runs.antt =====
-- Runs of `partial_cmp` of src/row.rs, and its theorem at concrete rows.
use kudu_rs.Base.{List, Ordering, arith, none, ok, refl, some, ℕ, ◌≡◌}
use kudu_rs.BitSet.{get, mask}
use kudu_rs.ByteOrder.{read_le, to_le}
use kudu_rs.Bytes.{cmp_bytes, eq_bytes}
use kudu_rs.Key.Columns.{encode_primary_key}
use kudu_rs.Key.Ints.Signed.{cmp_signed}
use kudu_rs.Key.Rows.{partial_cmp}
use kudu_rs.Key.Rows.Compare.{partial_cmp-encode_primary_key}
use kudu_rs.Key.Runs.{
  any_utf8, bytes_in_order, key_columns, key_low_first, key_map, key_row, key_row-HasKeys,
  key_row-IsRow, key_values, other_row, other_row-HasKeys, other_row-IsRow, other_values,
}
use kudu_rs.Row.{get_cell, new_row}
use kudu_rs.Schema.{new}
use kudu_rs.Schema.Equality.{eq_schema, eq_schema_self}
use kudu_rs.Types.{eq_data_type, size, variant}
use kudu_rs.Types.Equality.{eq_compression, eq_encoding}
use kudu_rs.Value.{bytes_value, i32_value, str_value}
use kudu_rs.BitSet.{with_capacity as bit_capacity}

compare_code : Unit {0}
unfolding partial_cmp eq_schema eq_bytes eq_data_type cmp_bytes cmp_signed get_cell get mask new
    size variant to_le read_le i32_value bytes_value str_value new_row eq_compression eq_encoding
    bit_capacity
compare_code = tt

-- Equal texts, then 99 and 100.
key_row-before :
    partial_cmp key_map key_low_first any_utf8 key_row other_row ≡ ok (some Ordering.lt)
unfolding compare_code
key_row-before = refl

-- No column of a new row is set.
unset_row :
    partial_cmp key_map key_low_first any_utf8 key_row (new_row key_map key_row.schema) ≡ ok none
unfolding compare_code
unset_row = refl

partial_cmp-encode_primary_key_example :
    (x y : List ℕ) × (encode_primary_key key_map bytes_in_order key_low_first any_utf8 key_row
      ≡ ok x)
    × (encode_primary_key key_map bytes_in_order key_low_first any_utf8 other_row ≡ ok y)
    × (partial_cmp key_map key_low_first any_utf8 key_row other_row ≡ ok (some (cmp_bytes x y)))
unfolding new
partial_cmp-encode_primary_key_example =
    partial_cmp-encode_primary_key key_map bytes_in_order key_low_first any_utf8 key_columns 2
      key_values other_values key_row other_row (omega arith) (eq_schema_self key_row.schema) refl
      (key_row-IsRow, other_row-IsRow) key_row-HasKeys other_row-HasKeys
