-- ===== src/Row/Columns.antt =====
-- The invariant of a row of src/row.rs, and what reading a cell comes down to.
use kudu_rs.Base.{
  Bool, Bool-cases, List, Option, Option-cases, Outcome, ap, arith, err, false, get_elem?,
  if◌then◌else◌, inl, inr, invalid_argument, length, none, not, ok, refl, some, sym, true, ℕ, ◌&&◌,
  ◌*◌, ◌<◌, ◌>>=◌, ◌∙◌, ◌≡◌, ◌≤◌, ◌⊎◌,
}
use kudu_rs.BitSet.Laws.{get-holds, holds}
use kudu_rs.Row.{Row, VecMap, check_column_for_read, get_cell, get_value, offset_of}
use kudu_rs.Schema.{Column, Schema}
use kudu_rs.Schema.Layout.{LaidOut, take-suc-width}
use kudu_rs.Value.{Value}
use kudu_rs.BitSet.{get as bit_get}

-- A row of columns that are laid out in its schema, with a place for each and a bit of each set.
pub record IsRow {M : Type 0} (cs : List Column) (r : Row M) : Type 0 where
  pub laid_out : LaidOut cs r.schema
  pub data_room : length r.row_data ≡ r.schema.row_size
  pub set_room : length cs ≤ 8 * length r.set_columns
  pub null_room : r.schema.has_nullable_columns ≡ true → length cs ≤ 8 * length r.null_columns

-- A cell that is set, or null, or has a value.
abbrev pub cell_of : {V : Type 0} → Value V → Bool → Bool → Outcome V → Outcome V
cell_of T is_set null value =
    if not is_set
    then err invalid_argument
    else if null
    then if T.nullable then T.from_null else err invalid_argument
    else value

abbrev pub null_bit : {M : Type 0} → Row M → ℕ → Bool
null_bit r idx = if r.schema.has_nullable_columns then holds r.null_columns idx else false

pub offset_of-ok :
    (s : Schema) (i at : ℕ) → get_elem? s.column_offsets i ≡ some at → offset_of s i ≡ ok at
unfolding offset_of
offset_of-ok s i at h = rw (offset_of, h) refl

module _ {M : Type 0} (vec_map : VecMap M) {V : Type 0} (T : Value V) where
  pub null_bit-ok :
      (cs : List Column) (r : Row M) (idx : ℕ)
      → IsRow cs r
      → idx < length cs
      → (if r.schema.has_nullable_columns then bit_get r.null_columns idx else ok false)
        ≡ ok (null_bit r idx)
  null_bit-ok cs r idx row h = elim (Bool-cases r.schema.has_nullable_columns) [
    | inl e ↦ rw e (get-holds r.null_columns idx (omega (arith, row.null_room e, h)))
    | inr e ↦ rw e refl
  ]

  pub get_cell-cell :
      (cs : List Column) (r : Row M) (idx : ℕ)
      → IsRow cs r
      → idx < length cs
      → get_cell vec_map T r idx ≡ (
          check_column_for_read r idx T >>= λ _.
          cell_of T (holds r.set_columns idx) (null_bit r idx) (get_value vec_map T r idx))
  unfolding get_cell
  get_cell-cell cs r idx row h =
      rw (get-holds r.set_columns idx (omega (arith, row.set_room, h)), null_bit-ok cs r idx row h)
        refl

  -- A column that does not exist or has another type cannot be read.
  check_read-err :
      (cs : List Column) (r : Row M) (j : ℕ)
      → LaidOut cs r.schema
      → ((d : Column) → get_elem? cs j ≡ some d → T.can_read_from d.data_type ≡ false)
      → check_column_for_read r j T ≡ err invalid_argument
  unfolding check_column_for_read
  check_read-err cs r j laid other = elim (Option-cases (get_elem? cs j)) [
    | inl out ↦ rw (check_column_for_read, same_column ∙ out) refl
    | inr (d, found) ↦ rw (check_column_for_read, same_column ∙ found, other d found) refl
  ]
    where
      same_column : get_elem? r.schema.columns j ≡ get_elem? cs j
      same_column = ap (λ (c : List Column). get_elem? c j) laid.has_columns

  pub get_cell-err :
      (cs : List Column) (r : Row M) (j : ℕ)
      → LaidOut cs r.schema
      → ((d : Column) → get_elem? cs j ≡ some d → T.can_read_from d.data_type ≡ false)
      → get_cell vec_map T r j ≡ err invalid_argument
  unfolding get_cell
  get_cell-err cs r j laid other = rw (check_read-err cs r j laid other) refl

  -- A check of a column passes or reports an invalid argument.
  pub check_read-cases :
      (r : Row M) (j : ℕ)
      → (check_column_for_read r j T ≡ ok tt) ⊎ (check_column_for_read r j T ≡ err invalid_argument)
  unfolding check_column_for_read
  check_read-cases r j = of_column (get_elem? r.schema.columns j)
    where
      tested :
          (a b : Bool)
          → ((if a then err invalid_argument else if b then err invalid_argument else ok (tt {0}))
              ≡ ok tt)
            ⊎ ((if a then err invalid_argument else if b then err invalid_argument else ok (tt {0}))
                ≡ err invalid_argument)
      tested true b = inr refl
      tested false true = inr refl
      tested false false = inl refl

      of_column :
          (o : Option Column)
          → let checked : Outcome (Unit {0}) = elim o [
            | none ↦ err invalid_argument
            | some column ↦
                if not (T.can_read_from column.data_type)
                then err invalid_argument
                else if T.nullable && not column.is_nullable
                then err invalid_argument
                else ok tt
          ] in
            (checked ≡ ok tt) ⊎ (checked ≡ err invalid_argument)
      of_column none = inr refl
      of_column (some c) = tested _ _

  -- A cell that was read passed the check of its column.
  failed_read :
      (r : Row M) (j : ℕ)
      → check_column_for_read r j T ≡ err invalid_argument
      → get_cell vec_map T r j ≡ err invalid_argument
  unfolding get_cell
  failed_read r j failed = rw failed refl

  pub check_read-get_cell :
      (r : Row M) (j : ℕ) (v : V)
      → get_cell vec_map T r j ≡ ok v
      → check_column_for_read r j T ≡ ok tt
  check_read-get_cell r j v read = elim (check_read-cases r j) [
    | inl passed ↦ passed
    | inr failed ↦ absurd (err_is_not_ok (sym (failed_read r j failed) ∙ read))
  ]
    where
      err_is_not_ok : Path (Outcome V) (err invalid_argument) (ok v) → ⊥
      err_is_not_ok e = cc

  -- A cell that is not set cannot be read.
  pub get_cell-unset :
      (cs : List Column) (r : Row M) (j : ℕ)
      → IsRow cs r
      → holds r.set_columns j ≡ false
      → get_cell vec_map T r j ≡ err invalid_argument
  get_cell-unset cs r j row unset = elim (Option-cases (get_elem? cs j)) [
    | inl out ↦ get_cell-err cs r j row.laid_out (λ d found. absurd (none_is_not_some out found))
    | inr (d, found) ↦
        get_cell-cell cs r j row (take-suc-width cs j d found).1
        ∙ rw unset (elim (check_read-cases r j) [
          | inl passed ↦ rw passed refl
          | inr failed ↦ rw failed refl
        ])
  ]
    where
      none_is_not_some : {d : Column} → get_elem? cs j ≡ none → get_elem? cs j ≡ some d → ⊥
      none_is_not_some a b = cc
