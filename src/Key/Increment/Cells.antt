-- ===== src/Key/Increment/Cells.antt =====
-- What incrementing a cell of src/key.rs does.
use kudu_rs.Base.{
  Bool, Bool-cases, List, ap, false, get_elem?, if◌then◌else◌, inl, inr, not, ok, panic, refl, some,
  sym, true, ℕ, ◌<◌, ◌==◌, ◌^◌, ◌∙◌, ◌≡◌, ◌≢◌, ◌⊎◌,
}
use kudu_rs.ByteOrder.{LittleEndian}
use kudu_rs.Key.Increment.{
  increment_bytes, increment_cell, increment_int, increment_typed, is_absent, is_cell_incremented,
  is_int_incremented, is_typed_incremented, max_int, next_int,
}
use kudu_rs.Partition.{found}
use kudu_rs.Row.{Row, VecMap, check_column_for_write, get_cell, is_row_null, is_row_set, set_cell}
use kudu_rs.Row.Columns.{IsRow, check_read-get_cell, get_cell-err}
use kudu_rs.Row.SetGet.{CanWrite, set_cell-get_cell}
use kudu_rs.Schema.{Column}
use kudu_rs.Schema.Equality.{eq_schema}
use kudu_rs.Types.{DataType, eq_data_type, int64, size, string, timestamp, variant}
use kudu_rs.Value.{Value, bytes_value, i8_value}
use kudu_rs.Value.Lawful.{IsLawful}
use mathlib.Core.Option.{some-injective}

module _ {M : Type 0} (vec_map : VecMap M) (little_endian : LittleEndian)
    (next_f32 next_f64 : ℕ → ℕ) (cs : List Column) (idx : ℕ) (c : Column)
    (at_index : get_elem? cs idx ≡ some c) where
  -- A cell that is set and not null.
  abbrev pub Present : Row M → Type 0
  Present r = (is_row_set r idx ≡ ok true) × (is_row_null r idx ≡ ok false)

  is_absent-Present :
      (r : Row M) → Present r → is_absent vec_map little_endian next_f32 next_f64 r idx ≡ ok false
  unfolding is_absent
  is_absent-Present r present = rw (present.0, present.1) refl

  increment_cell-typed :
      (t : DataType) (r : Row M)
      → IsRow cs r
      → Present r
      → c.data_type ≡ t
      → increment_cell vec_map little_endian next_f32 next_f64 r idx
        ≡ increment_typed vec_map little_endian next_f32 next_f64 t r idx
  unfolding increment_cell
  increment_cell-typed t r row present of_type =
      rw
        (
          increment_cell,
          is_absent-Present r present,
          ap (λ (x : List Column). get_elem? x idx) row.laid_out.has_columns ∙ at_index,
          of_type,
        )
        refl

  -- Incrementing a present cell of a string column panics, whatever it holds: it writes a
  -- `Vec<u8>`, which only a binary column takes.
  pub increment_cell-string :
      (v : List ℕ) (r : Row M)
      → IsRow cs r
      → Present r
      → c.data_type ≡ string
      → get_cell vec_map bytes_value r idx ≡ ok v
      → increment_cell vec_map little_endian next_f32 next_f64 r idx ≡ panic
  unfolding increment_typed increment_bytes set_cell check_column_for_write bytes_value eq_data_type
      variant
  increment_cell-string v r row present of_type read =
      increment_cell-typed string r row present of_type
      ∙ rw
          (
            read,
            check_column_for_write,
            ap (λ (x : List Column). get_elem? x idx) row.laid_out.has_columns ∙ at_index,
            of_type,
          )
          refl

  -- The cells of an `Int64` or a `Timestamp` column are read as `i8`, which these columns refuse,
  -- so comparing two present cells of them, in rows of equal schemas, panics, whatever they hold.
  pub is_cell_incremented-int64 :
      (lower upper : Row M)
      → IsRow cs lower
      → Present lower × Present upper
      → eq_schema lower.schema upper.schema ≡ true
      → (c.data_type ≡ int64) ⊎ (c.data_type ≡ timestamp)
      → is_cell_incremented vec_map little_endian next_f32 next_f64 lower upper idx ≡ panic
  unfolding is_cell_incremented is_typed_incremented is_int_incremented i8_value eq_data_type
      variant
  is_cell_incremented-int64 lower upper row present same_schema of_type = elim of_type [
    | inl e ↦
        rw
          (
            is_cell_incremented,
            same_schema,
            is_absent-Present lower present.0,
            is_absent-Present upper present.1,
            column_at lower row,
            e,
            get_cell-err vec_map i8_value cs lower idx row.laid_out (refused int64 e refl),
          )
          refl
    | inr e ↦
        rw
          (
            is_cell_incremented,
            same_schema,
            is_absent-Present lower present.0,
            is_absent-Present upper present.1,
            column_at lower row,
            e,
            get_cell-err vec_map i8_value cs lower idx row.laid_out (refused timestamp e refl),
          )
          refl
  ]
    where
      column_at : (r : Row M) → IsRow cs r → get_elem? r.schema.columns idx ≡ some c
      column_at r row =
          ap (λ (x : List Column). get_elem? x idx) row.laid_out.has_columns ∙ at_index

      refused :
          (t : DataType)
          → c.data_type ≡ t
          → i8_value.can_read_from t ≡ false
          → (d : Column) → get_elem? cs idx ≡ some d
          → i8_value.can_read_from d.data_type ≡ false
      refused t e f d found =
          ap (λ (x : Column). i8_value.can_read_from x.data_type)
            (some-injective d c (sym found ∙ at_index))
          ∙ ap (λ (u : DataType). i8_value.can_read_from u) e
          ∙ f

  -- The integers that a type of column holds.
  pub record IntColumn (t : DataType) (n : ℕ) (T : Value ℕ) : Type 0 where
    pub arm :
        (r : Row M)
        → increment_typed vec_map little_endian next_f32 next_f64 t r idx
          ≡ increment_int vec_map little_endian next_f32 next_f64 T n r idx
    pub lawful : (x : ℕ) → x < 256 ^ n → IsLawful T x
    pub writes : T.can_write_to t ≡ true
    pub not_nullable : T.nullable ≡ false
    pub in_range : (x : ℕ) → next_int n x < 256 ^ n

  -- Reading any other cell gives what it gave before, with any type of value that is as long as the
  -- columns it reads.
  unfoldable pub SameOthers : Row M → Row M → Type 1
  SameOthers r r' =
      (W : Type 0) (U : Value W) (j : ℕ)
      → ((t : DataType) → U.can_read_from t ≡ true → size t ≡ U.value_size)
      → idx ≢ j
      → get_cell vec_map U r' j ≡ get_cell vec_map U r j

  -- An integer that a column of this kind holds is replaced by the next, unless it is the greatest.
  pub increment_cell-column :
      (t : DataType) (n : ℕ) (T : Value ℕ) (x : ℕ) (r : Row M)
      → IntColumn t n T
      → IsRow cs r
      → Present r
      → c.data_type ≡ t
      → get_cell vec_map T r idx ≡ ok x
      → (r' : Row M) × (incremented : Bool) × (increment_cell vec_map little_endian next_f32
            next_f64 r idx
          ≡ ok (r', incremented))
        × IsRow cs r'
        × (incremented ≡ not (x == max_int n))
        × (get_cell vec_map T r' idx ≡ ok (if x == max_int n then x else next_int n x))
        × SameOthers r r'
  unfolding increment_int SameOthers
  increment_cell-column t n T x r int row present of_type read =
      elim (Bool-cases (x == max_int n)) [
        | inl greatest ↦ (
          r,
          false,
          reaches ∙ rw (read, greatest) refl,
          row,
          rw greatest refl,
          read ∙ rw greatest refl,
          λ W U j sized ne. refl,
        )
        | inr other ↦
            let (r', set_ok, row', back, others) =
              set_cell-get_cell vec_map cs idx T (next_int n x) r row can
                (int.lawful (next_int n x) (int.in_range x)) in
            (
              r',
              true,
              reaches ∙ rw (read, other, set_ok) refl,
              row',
              rw other refl,
              back ∙ rw (check_read-get_cell vec_map T r idx x read, other) refl,
              others,
            )
      ]
    where
      reaches :
          increment_cell vec_map little_endian next_f32 next_f64 r idx
          ≡ increment_int vec_map little_endian next_f32 next_f64 T n r idx
      reaches = increment_cell-typed t r row present of_type ∙ int.arm r

      can : CanWrite vec_map cs idx T
      can = record {
        column = c;
        at_index = at_index;
        has_type = ap T.can_write_to of_type ∙ int.writes;
        allows_null = λ e. absurd (contradiction e);
      }
        where
          contradiction : T.nullable ≡ true → ⊥
          contradiction e = let f = int.not_nullable in cc
