-- ===== src/Row/Faults.antt =====
-- Cells that src/row.rs cannot write or read: optional values.
use kudu_rs.Base.{
  Bool-cases, List, arith, err, false, get_elem?, inl, inr, invalid_argument, panic, refl, some,
  true, ℕ, ◌≡◌,
}
use kudu_rs.Row.{
  Row, VecMap, check_column_for_read, get_by_name, get_cell, set_cell, set_unchecked, set_value,
}
use kudu_rs.Row.Columns.{IsRow, offset_of-ok}
use kudu_rs.Row.SetGet.{CanWrite, check_write-ok}
use kudu_rs.Row.Slices.{slice-ok}
use kudu_rs.Row.Writes.{NullCleared, null_cleared, set_bit}
use kudu_rs.Schema.{Column, column_index}
use kudu_rs.Schema.Layout.{take-suc-width}
use kudu_rs.Types.{DataType, size}
use kudu_rs.Value.{Value, option_value}

module _ {M V : Type 0} (vec_map : VecMap M) (cs : List Column) (T : Value V) where
  -- Writing a value that is present to a nullable column through `Option` panics where the type of
  -- the value has its place in the row, since `Option<V>` does not pass `copy_data` on.
  pub set_cell-option_fixed :
      (idx : ℕ) (v : V) (r : Row M)
      → IsRow cs r
      → CanWrite vec_map cs idx (option_value T)
      → T.var_len ≡ false
      → ((t : DataType) → T.can_write_to t ≡ true → size t ≡ T.value_size)
      → set_cell vec_map (option_value T) r idx (some v) ≡ panic
  unfolding set_cell set_unchecked set_value option_value NullCleared
  set_cell-option_fixed idx v r row can direct sized =
      let h = (take-suc-width cs idx can.column can.at_index).1 in
      let (bits, set_ok, _, _) = set_bit vec_map cs idx r row h in
      let (nulls, cleared) = null_cleared vec_map cs idx r row h in
      let (at, offset, _, _, inside) = row.laid_out.column_at idx can.column can.at_index in
      let wide : size can.column.data_type ≡ T.value_size =
        sized can.column.data_type can.has_type in
      let (old_bytes, _) =
        slice-ok r.row_data at T.value_size (omega (arith, inside, row.data_room, wide)) in
      rw
        (
          check_write-ok vec_map cs idx (option_value T) (some v) r row can,
          set_ok,
          cleared.0,
          direct,
          offset_of-ok r.schema idx at offset,
          old_bytes,
        )
        refl

  -- `get_by_name` reads with an optional type, so it refuses every column that is not nullable,
  -- whatever the cell holds.
  pub get_by_name-not_null :
      (name : List ℕ) (idx : ℕ) (c : Column) (r : Row M)
      → column_index r.schema name ≡ some idx
      → get_elem? r.schema.columns idx ≡ some c
      → c.is_nullable ≡ false
      → get_by_name vec_map T r name ≡ err invalid_argument
  unfolding get_by_name get_cell check_column_for_read option_value
  get_by_name-not_null name idx c r at_name found not_null =
      elim (Bool-cases (T.can_read_from c.data_type)) [
        | inl readable ↦
            rw (get_by_name, at_name, get_cell, check_column_for_read, found, readable, not_null)
              refl
        | inr unreadable ↦
            rw (get_by_name, at_name, get_cell, check_column_for_read, found, unreadable) refl
      ]
