-- ===== src/Row/Nulls.antt =====
-- New rows of src/row.rs and `set_null`.
use kudu_rs.Base.{
  ==_refl, List, ap, arith, err, false, get_elem?, invalid_argument, length, length-replicate,
  lt→leb_false, ok, refl, some, subst, sym, true, ℕ, ◌*◌, ◌<◌, ◌∙◌, ◌≡◌, ◌≢◌, ◌≤◌,
}
use kudu_rs.BitSet.Laws.{get-holds, holds, with_capacity-holds}
use kudu_rs.Row.{
  Row, VecMap, check_column_for_nullability, get_cell, is_row_null, is_row_set, new_row, set_null,
}
use kudu_rs.Row.After.{Stored-delete, after, after-Keeps}
use kudu_rs.Row.Columns.{IsRow, get_cell-unset, null_bit, null_bit-ok}
use kudu_rs.Row.Writes.{get_cell-Keeps, null_bit_set, set_bit}
use kudu_rs.Schema.{Column, Schema}
use kudu_rs.Schema.Layout.{LaidOut, any_nullable-at, take-suc-width}
use kudu_rs.Types.{DataType, size}
use kudu_rs.Value.{Value, bool_value}
use kudu_rs.BitSet.{with_capacity as bit_capacity}

module _ {M : Type 0} (vec_map : VecMap M) (cs : List Column) where
  pub new_row-IsRow : (s : Schema) → LaidOut cs s → IsRow cs (new_row vec_map s)
  unfolding new_row
  new_row-IsRow s laid = record {
    laid_out = laid;
    data_room = length-replicate s.row_size 0;
    set_room =
        subst (λ (c : List Column). length cs ≤ 8 * length (bit_capacity (length c)))
          (sym laid.has_columns) (with_capacity-holds (length cs)).0;
    null_room = λ e. rw (e, laid.has_columns) (with_capacity-holds (length cs)).0;
  }

  -- A new row has room for every column, and no cell of it can be read.
  pub new_row-unset :
      {V : Type 0} (T : Value V) (s : Schema) (j : ℕ)
      → LaidOut cs s
      → IsRow cs (new_row vec_map s)
        × (get_cell vec_map T (new_row vec_map s) j ≡ err invalid_argument)
  unfolding new_row
  new_row-unset T s j laid = (
    new_row-IsRow s laid,
    get_cell-unset vec_map T cs (new_row vec_map s) j (new_row-IsRow s laid) none_set,
  )
    where
      none_set : holds (new_row vec_map s).set_columns j ≡ false
      none_set = (with_capacity-holds (length s.columns)).1 j

  -- The bits of a cell, as `is_null` and `is_set` tell them.
  is_row_null-bit :
      (r : Row M) (idx : ℕ) → IsRow cs r → idx < length cs → is_row_null r idx ≡ ok (null_bit r idx)
  unfolding is_row_null
  is_row_null-bit r idx row h =
      rw (is_row_null, row.laid_out.has_columns, lt→leb_false (length cs) idx h)
        (null_bit-ok vec_map bool_value cs r idx row h)

  is_row_set-bit :
      (r : Row M) (idx : ℕ)
      → IsRow cs r
      → idx < length cs
      → is_row_set r idx ≡ ok (holds r.set_columns idx)
  unfolding is_row_set
  is_row_set-bit r idx row h =
      rw (is_row_set, row.laid_out.has_columns, lt→leb_false (length cs) idx h)
        (get-holds r.set_columns idx (omega (arith, row.set_room, h)))

  -- `set_null` of a nullable column succeeds: the cell is set and null, and reading any other cell
  -- gives what it gave before, with any type of value that is as long as the columns it reads.
  pub set_null-is_null :
      (r : Row M) (idx : ℕ) (c : Column)
      → IsRow cs r
      → get_elem? cs idx ≡ some c
      → c.is_nullable ≡ true
      → (r' : Row M) × (set_null vec_map r idx ≡ ok r')
        × IsRow cs r'
        × (is_row_null r' idx ≡ ok true)
        × (is_row_set r' idx ≡ ok true)
        × ((W : Type 0) (U : Value W) (j : ℕ)
            → ((t : DataType) → U.can_read_from t ≡ true → size t ≡ U.value_size)
            → idx ≢ j
            → get_cell vec_map U r' j ≡ get_cell vec_map U r j)
  unfolding set_null check_column_for_nullability
  set_null-is_null r idx c row at_index nullable =
      let h = (take-suc-width cs idx c at_index).1 in
      let has : r.schema.has_nullable_columns ≡ true =
        row.laid_out.has_nullable ∙ any_nullable-at cs idx c at_index nullable in
      let (bits, set_ok, set_length, set_held) = set_bit vec_map cs idx r row h in
      let (nulls, null_ok, null_length, null_held) = null_bit_set vec_map cs idx r row h has in
      let kept =
        after-Keeps vec_map cs idx r row r.row_data (vec_map.delete r.row_indirect_data idx) bits
          nulls true (Stored-delete vec_map cs idx r row) (set_length, set_held)
          (null_length, λ j. rw has (null_held j)) in
      (
        after vec_map cs idx r row r.row_data (vec_map.delete r.row_indirect_data idx) bits nulls,
        rw (check_nullable-ok, set_ok, null_ok) refl,
        kept.still_row,
        is_row_null-bit _ idx kept.still_row h ∙ rw (has, null_held idx, ==_refl idx) refl,
        is_row_set-bit _ idx kept.still_row h ∙ rw (set_held idx, ==_refl idx) refl,
        λ W U j sized ne. get_cell-Keeps vec_map cs idx U r _ j row kept ne sized,
      )
    where
      same_column : get_elem? r.schema.columns idx ≡ some c
      same_column = ap (λ (c : List Column). get_elem? c idx) row.laid_out.has_columns ∙ at_index

      check_nullable-ok : check_column_for_nullability r idx ≡ ok tt
      check_nullable-ok = rw (check_column_for_nullability, same_column, nullable) refl
