-- ===== src/Row/Writes.antt =====
-- Writing a cell of a row of src/row.rs: what is read afterwards.
use kudu_rs.Base.{
  Bool, Bool-cases, List, Option-cases, ap, arith, false, get_elem?, if◌then◌else◌, inl, inr,
  length, none, ok, refl, some, sym, true, ℕ, ◌<◌, ◌==◌, ◌∙◌, ◌≡◌, ◌≢◌,
}
use kudu_rs.BitSet.{BitSet}
use kudu_rs.BitSet.Laws.{holds, insert-holds, remove-holds}
use kudu_rs.Row.{Row, VecMap, check_column_for_read, get_cell, get_value}
use kudu_rs.Row.Cells.{Stored}
use kudu_rs.Row.Columns.{IsRow, get_cell-cell, get_cell-err, null_bit, offset_of-ok}
use kudu_rs.Schema.{Column}
use kudu_rs.Schema.Layout.{LaidOut, take-suc-width}
use kudu_rs.Types.{DataType, size}
use kudu_rs.Value.{Value}
use kudu_rs.BitSet.{insert as bit_insert}
use kudu_rs.BitSet.{remove as bit_remove}
use mathlib.Core.Option.{some-injective}

module _ {M : Type 0} (vec_map : VecMap M) (cs : List Column) (idx : ℕ) where
  -- A row whose other cells are those of another row, bits included.
  pub record Keeps (r r' : Row M) : Type 0 where
    pub still_row : IsRow cs r'
    pub keeps : Stored vec_map cs idx r r'
    pub same_set : (j : ℕ) → idx ≢ j → holds r'.set_columns j ≡ holds r.set_columns j
    pub same_null : (j : ℕ) → idx ≢ j → null_bit r' j ≡ null_bit r j

  module _ {V : Type 0} (T : Value V) where
    get_value-Stored :
        (r r' : Row M) (j : ℕ) (d : Column)
        → LaidOut cs r.schema
        → Stored vec_map cs idx r r'
        → idx ≢ j
        → get_elem? cs j ≡ some d
        → size d.data_type ≡ T.value_size
        → get_value vec_map T r' j ≡ get_value vec_map T r j
    unfolding get_value
    get_value-Stored r r' j d laid kept ne at_j sized =
        let (at, offset, _, _, _) = laid.column_at j d at_j in
        rw
          (
            kept.same_schema,
            kept.same_indirect j ne,
            offset_of-ok r.schema j at offset,
            sym sized,
            kept.same_direct j at d ne at_j offset,
          )
          refl

    pub check_read-same :
        (r r' : Row M) (j : ℕ)
        → r'.schema ≡ r.schema
        → check_column_for_read r' j T ≡ check_column_for_read r j T
    unfolding check_column_for_read
    check_read-same r r' j same_schema = rw same_schema refl

    pub get_cell-Keeps :
        (r r' : Row M) (j : ℕ)
        → IsRow cs r
        → Keeps r r'
        → idx ≢ j
        → ((t : DataType) → T.can_read_from t ≡ true → size t ≡ T.value_size)
        → get_cell vec_map T r' j ≡ get_cell vec_map T r j
    get_cell-Keeps r r' j row kept ne sized = elim (Option-cases (get_elem? cs j)) [
      | inl out ↦
          let nothing : (d : Column)
              → get_elem? cs j ≡ some d
              → T.can_read_from d.data_type ≡ false =
            λ d found. absurd (none_is_not_some out found) in
          get_cell-err vec_map T cs r' j kept.still_row.laid_out nothing
          ∙ sym (get_cell-err vec_map T cs r j row.laid_out nothing)
      | inr (d, found) ↦ elim (Bool-cases (T.can_read_from d.data_type)) [
        | inr unreadable ↦
            let other : (e : Column)
                → get_elem? cs j ≡ some e
                → T.can_read_from e.data_type ≡ false =
              λ e found_e. same_column d e found found_e unreadable in
            get_cell-err vec_map T cs r' j kept.still_row.laid_out other
            ∙ sym (get_cell-err vec_map T cs r j row.laid_out other)
        | inl readable ↦
            get_cell-cell vec_map T cs r' j kept.still_row (inside d found)
            ∙ rw
                (
                  check_read-same r r' j kept.keeps.same_schema,
                  kept.same_set j ne,
                  kept.same_null j ne,
                  get_value-Stored r r' j d row.laid_out kept.keeps ne found
                      (sized d.data_type readable),
                )
                refl
            ∙ sym (get_cell-cell vec_map T cs r j row (inside d found))
      ]
    ]
      where
        none_is_not_some : {d : Column} → get_elem? cs j ≡ none → get_elem? cs j ≡ some d → ⊥
        none_is_not_some a b = cc

        same_column :
            (d e : Column)
            → get_elem? cs j ≡ some d
            → get_elem? cs j ≡ some e
            → T.can_read_from d.data_type ≡ false
            → T.can_read_from e.data_type ≡ false
        same_column d e a b h =
            ap (λ (x : Column). T.can_read_from x.data_type) (sym (some-injective d e (sym a ∙ b)))
            ∙ h

        inside : (d : Column) → get_elem? cs j ≡ some d → j < length cs
        inside d h = (take-suc-width cs j d h).1

  -- The set bit of a column.
  pub set_bit :
      (r : Row M)
      → IsRow cs r
      → idx < length cs
      → (bits : BitSet) × (bit_insert r.set_columns idx ≡ ok bits)
        × (length bits ≡ length r.set_columns)
        × ((j : ℕ) → holds bits j ≡ (if idx == j then true else holds r.set_columns j))
  set_bit r row h = insert-holds r.set_columns idx (omega (arith, row.set_room, h))

  -- The null bit of a column where the schema has null bits.
  pub null_bit_set :
      (r : Row M)
      → IsRow cs r
      → idx < length cs
      → r.schema.has_nullable_columns ≡ true
      → (bits : BitSet) × (bit_insert r.null_columns idx ≡ ok bits)
        × (length bits ≡ length r.null_columns)
        × ((j : ℕ) → holds bits j ≡ (if idx == j then true else holds r.null_columns j))
  null_bit_set r row h nullable =
      insert-holds r.null_columns idx (omega (arith, row.null_room nullable, h))

  -- Clearing the null bit, where there is one.
  unfoldable pub NullCleared : Row M → BitSet → Type 0
  NullCleared r bits =
      ((if r.schema.has_nullable_columns then bit_remove r.null_columns idx else ok r.null_columns)
        ≡ ok bits)
      × (length bits ≡ length r.null_columns)
      × ((j : ℕ)
          → (if r.schema.has_nullable_columns then holds bits j else false)
            ≡ (if idx == j then false else null_bit r j))

  pub null_cleared :
      (r : Row M) → IsRow cs r → idx < length cs → (bits : BitSet) × NullCleared r bits
  unfolding NullCleared
  null_cleared r row h = elim (Bool-cases r.schema.has_nullable_columns) [
    | inl e ↦
        let (bits, cleared, same_length, held) =
          remove-holds r.null_columns idx (omega (arith, row.null_room e, h)) in
        (bits, (rw e cleared, same_length, λ j. rw e (held j)))
    | inr e ↦ (r.null_columns, (rw e refl, refl, λ j. rw e (sym (if_same (idx == j)))))
  ]
    where
      if_same : (b : Bool) → (if b then false else false) ≡ false
      if_same true = refl
      if_same false = refl
