-- ===== src/Row/SetGet.antt =====
-- What `set`, `set_null` and `get` of src/row.rs do to each other.
use kudu_rs.Base.{
  ==_refl, Bool, Bool-cases, List, Outcome, ap, false, get_elem?, inl, inr, length, ok, refl, some,
  true, ℕ, ◌<◌, ◌>>=◌, ◌∙◌, ◌≡◌, ◌≢◌,
}
use kudu_rs.BitSet.{BitSet}
use kudu_rs.BitSet.Laws.{holds}
use kudu_rs.Row.{
  Row, VecMap, check_column_for_read, check_column_for_write, get_cell, get_value, set_cell,
  set_unchecked,
}
use kudu_rs.Row.After.{
  NullBits, SetBits, Stored-delete, after, after-IsRow, after-Keeps, same-Stored,
}
use kudu_rs.Row.Cells.{Stored, set_value-Stores}
use kudu_rs.Row.Columns.{IsRow, cell_of, get_cell-cell, null_bit}
use kudu_rs.Row.Writes.{
  Keeps, NullCleared, check_read-same, get_cell-Keeps, null_bit_set, null_cleared, set_bit,
}
use kudu_rs.Schema.{Column}
use kudu_rs.Schema.Layout.{any_nullable-at, take-suc-width}
use kudu_rs.Types.{DataType, size}
use kudu_rs.Value.{Value}
use kudu_rs.Value.Lawful.{IsLawful}

module _ {M : Type 0} (vec_map : VecMap M) (cs : List Column) (idx : ℕ) where
  -- Column `idx` can be written with values of a type.
  pub record CanWrite {V : Type 0} (T : Value V) : Type 0 where
    pub column : Column
    pub at_index : get_elem? cs idx ≡ some column
    pub has_type : T.can_write_to column.data_type ≡ true
    pub allows_null : T.nullable ≡ true → column.is_nullable ≡ true

  module _ {V : Type 0} (T : Value V) (v : V) (r : Row M) (row : IsRow cs r)
      (can : CanWrite T) where
    inside : idx < length cs
    inside = (take-suc-width cs idx can.column can.at_index).1

    same_column : get_elem? r.schema.columns idx ≡ some can.column
    same_column = ap (λ (c : List Column). get_elem? c idx) row.laid_out.has_columns ∙ can.at_index

    pub check_write-ok : check_column_for_write r idx T ≡ ok tt
    unfolding check_column_for_write
    check_write-ok = elim (Bool-cases T.nullable) [
      | inl e ↦ rw (check_column_for_write, same_column, can.has_type, e, can.allows_null e) refl
      | inr e ↦ rw (check_column_for_write, same_column, can.has_type, e) refl
    ]

    -- Past the check, `set` is `set_unchecked`.
    pub set_cell-unchecked : set_cell vec_map T r idx v ≡ set_unchecked vec_map T r idx v
    unfolding set_cell
    set_cell-unchecked =
        ap (λ (m : Outcome (Unit {0})). m >>= λ _. set_unchecked vec_map T r idx v) check_write-ok

    has_null_bits : T.nullable ≡ true → r.schema.has_nullable_columns ≡ true
    has_null_bits e =
        row.laid_out.has_nullable
        ∙ any_nullable-at cs idx can.column can.at_index (can.allows_null e)

    -- The cell that is read once its bits and its value are known.
    read_back :
        (r' : Row M) (null : Bool)
        → IsRow cs r'
        → r'.schema ≡ r.schema
        → holds r'.set_columns idx ≡ true
        → null_bit r' idx ≡ null
        → cell_of T true null (get_value vec_map T r' idx) ≡ ok v
        → get_cell vec_map T r' idx ≡ (check_column_for_read r idx T >>= λ _. ok v)
    read_back r' null row' same_schema set_now null_now value =
        get_cell-cell vec_map T cs r' idx row' inside
        ∙ rw (set_now, null_now, value, check_read-same vec_map cs idx T r r' idx same_schema) refl

    pub record SetCell (r' : Row M) : Type 0 where
      pub set_ok : set_cell vec_map T r idx v ≡ ok r'
      pub kept : Keeps vec_map cs idx r r'
      pub back : get_cell vec_map T r' idx ≡ (check_column_for_read r idx T >>= λ _. ok v)

    after-SetCell :
        (row_data : List ℕ) (indirect : M) (bits nulls : BitSet) (null : Bool)
        → Stored vec_map cs idx r (record r { row_data = row_data; row_indirect_data = indirect })
        → SetBits vec_map cs idx r row bits
        → NullBits vec_map cs idx r row null nulls
        → set_cell vec_map T r idx v ≡ ok (after vec_map cs idx r row row_data indirect bits nulls)
        → cell_of T true null
            (get_value vec_map T (after vec_map cs idx r row row_data indirect bits nulls) idx)
          ≡ ok v
        → (r' : Row M) × SetCell r'
    after-SetCell row_data indirect bits nulls null stored set_bits null_bits set_ok value = (
      after vec_map cs idx r row row_data indirect bits nulls,
      record {
        set_ok = set_ok;
        kept =
            after-Keeps vec_map cs idx r row row_data indirect bits nulls null stored set_bits
              null_bits;
        back =
            read_back (after vec_map cs idx r row row_data indirect bits nulls) null
              (after-IsRow vec_map cs idx r row row_data indirect bits nulls null stored set_bits
                null_bits)
              refl (set_bits.1 idx ∙ rw (==_refl idx) refl)
              (null_bits.1 idx ∙ rw (==_refl idx) refl) value;
      },
    )

    SetCell-null : IsLawful T v → T.is_null v ≡ true → (r' : Row M) × SetCell r'
    unfolding set_cell set_unchecked
    SetCell-null lawful null =
        let (nullable, from_null) = lawful.null_back null in
        let has = has_null_bits nullable in
        let (bits, set_ok, set_length, set_held) = set_bit vec_map cs idx r row inside in
        let (nulls, null_ok, null_length, null_held) =
          null_bit_set vec_map cs idx r row inside has in
        after-SetCell r.row_data (vec_map.delete r.row_indirect_data idx) bits nulls true
          (Stored-delete vec_map cs idx r row) (set_length, set_held)
          (null_length, λ j. rw has (null_held j)) (rw (check_write-ok, set_ok, null, null_ok) refl)
          (rw (nullable, from_null) refl)

    SetCell-present : IsLawful T v → T.is_null v ≡ false → (r' : Row M) × SetCell r'
    unfolding set_cell set_unchecked NullCleared
    SetCell-present lawful present =
        let (bits, set_ok, set_length, set_held) = set_bit vec_map cs idx r row inside in
        let (nulls, cleared) = null_cleared vec_map cs idx r row inside in
        let s =
          set_value-Stores vec_map cs idx T v
            (record r { set_columns = bits; null_columns = nulls }) can.column row.laid_out
            can.at_index lawful present row.data_room can.has_type in
        after-SetCell s.new_row_data s.new_indirect bits nulls false
          (same-Stored vec_map cs idx r row s.stored) (set_length, set_held) (cleared.1, cleared.2)
          (rw (check_write-ok, set_ok, present, cleared.0) s.stores) (s.reads bits nulls)

    -- Writing a lawful value to a column that takes it succeeds; the cell is then read back as this
    -- value, unless values of the type cannot be read from the column, and reading any other cell
    -- gives what it gave before, with any type of value that is as long as the columns it reads.
    pub set_cell-get_cell :
        IsLawful T v
        → (r' : Row M) × (set_cell vec_map T r idx v ≡ ok r')
          × IsRow cs r'
          × (get_cell vec_map T r' idx ≡ (check_column_for_read r idx T >>= λ _. ok v))
          × ((W : Type 0) (U : Value W) (j : ℕ)
              → ((t : DataType) → U.can_read_from t ≡ true → size t ≡ U.value_size)
              → idx ≢ j
              → get_cell vec_map U r' j ≡ get_cell vec_map U r j)
    set_cell-get_cell lawful =
        let (r', s) = written lawful in
        (
          r',
          s.set_ok,
          s.kept.still_row,
          s.back,
          λ W U j sized ne. get_cell-Keeps vec_map cs idx U r r' j row s.kept ne sized,
        )
      where
        written : IsLawful T v → (r' : Row M) × SetCell r'
        written lawful = elim (Bool-cases (T.is_null v)) [
          | inl null ↦ SetCell-null lawful null
          | inr present ↦ SetCell-present lawful present
        ]
