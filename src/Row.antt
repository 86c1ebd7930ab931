-- ===== src/Row.antt =====
-- src/row.rs: `Row`, the cells of a row in the layout of its schema.
pub mod Slices
pub mod Columns
pub mod Cells
pub mod Writes
pub mod After
pub mod SetGet
pub mod Nulls
pub mod Faults
pub mod Encoder
pub mod Encoded
pub mod EncodedLen
mod EncoderRuns
pub mod Runs
use kudu_rs.Base.{
  Bool, List, Option, Outcome, drop, err, false, get_elem?, if◌then◌else◌, invalid_argument, leb,
  length, none, not, ok, panic, replicate, set, some, take, ℕ, ◌&&◌, ◌++◌, ◌+◌, ◌>>=◌, ◌≡◌, ◌≢◌,
}
use kudu_rs.BitSet.{BitSet}
use kudu_rs.Schema.{Schema, column_index}
use kudu_rs.Value.{Value, option_value}
use kudu_rs.BitSet.{with_capacity as bit_capacity}
use kudu_rs.BitSet.{get as bit_get}
use kudu_rs.BitSet.{insert as bit_insert}
use kudu_rs.BitSet.{remove as bit_remove}

-- The crate vec_map, which is not part of the repository: an interface states what its documentation
-- promises of a map `M` from column indexes to byte vectors.
pub record VecMap (M : Type 0) : Type 0 where
  pub empty : M
  pub put : M → ℕ → List ℕ → M
  pub delete : M → ℕ → M
  pub find : M → ℕ → Option (List ℕ)
  pub find-empty : (i : ℕ) → find empty i ≡ none
  pub find-put_self : (m : M) (i : ℕ) (v : List ℕ) → find (put m i v) i ≡ some v
  pub find-put_ne : (m : M) (i j : ℕ) (v : List ℕ) → i ≢ j → find (put m i v) j ≡ find m j
  pub find-delete_ne : (m : M) (i j : ℕ) → i ≢ j → find (delete m i) j ≡ find m j

pub record Row (M : Type 0) : Type 0 where
  pub row_data : List ℕ
  pub row_indirect_data : M
  pub set_columns : BitSet
  pub null_columns : BitSet
  pub schema : Schema

module _ {M : Type 0} (vec_map : VecMap M) where
  unfoldable pub new_row : Schema → Row M
  new_row schema = record {
    row_data = replicate schema.row_size 0;
    row_indirect_data = vec_map.empty;
    set_columns = bit_capacity (length schema.columns);
    null_columns = bit_capacity (if schema.has_nullable_columns then length schema.columns else 0);
    schema = schema;
  }

module _ {M V : Type 0} where
  -- The checks of a column: it exists, the value has a type for it, and a nullable value a nullable
  -- column.
  unfoldable pub check_column_for_write : Row M → ℕ → Value V → Outcome (Unit {0})
  check_column_for_write r idx T = elim (get_elem? r.schema.columns idx) [
    | none ↦ err invalid_argument
    | some column ↦
        if not (T.can_write_to column.data_type)
        then err invalid_argument
        else if T.nullable && not column.is_nullable
        then err invalid_argument
        else ok tt
  ]

  unfoldable pub check_column_for_read : Row M → ℕ → Value V → Outcome (Unit {0})
  check_column_for_read r idx T = elim (get_elem? r.schema.columns idx) [
    | none ↦ err invalid_argument
    | some column ↦
        if not (T.can_read_from column.data_type)
        then err invalid_argument
        else if T.nullable && not column.is_nullable
        then err invalid_argument
        else ok tt
  ]

module _ {M : Type 0} where
  unfoldable pub check_column_for_nullability : Row M → ℕ → Outcome (Unit {0})
  check_column_for_nullability r idx = elim (get_elem? r.schema.columns idx) [
    | none ↦ err invalid_argument
    | some column ↦ if not column.is_nullable then err invalid_argument else ok tt
  ]

  unfoldable pub is_row_null : Row M → ℕ → Outcome Bool
  is_row_null r idx =
      if leb (length r.schema.columns) idx
      then err invalid_argument
      else if r.schema.has_nullable_columns
      then bit_get r.null_columns idx
      else ok false

  unfoldable pub is_row_set : Row M → ℕ → Outcome Bool
  is_row_set r idx =
      if leb (length r.schema.columns) idx then err invalid_argument else bit_get r.set_columns idx

-- `&data[from..from + n]`, which panics out of bounds, and a write of `n` bytes at this place.
unfoldable pub slice : List ℕ → ℕ → ℕ → Outcome (List ℕ)
slice bytes from n = if leb (from + n) (length bytes) then ok (take n (drop from bytes)) else panic

unfoldable pub splice : List ℕ → ℕ → List ℕ → List ℕ
splice bytes from bs = take from bytes ++ (bs ++ drop (from + length bs) bytes)

-- `column_offsets()[idx]`
unfoldable pub offset_of : Schema → ℕ → Outcome ℕ
offset_of s idx = elim (get_elem? s.column_offsets idx) [ none ↦ panic | some at ↦ ok at ]

module _ {M : Type 0} (vec_map : VecMap M) where
  unfoldable pub set_null : Row M → ℕ → Outcome (Row M)
  unfolding check_column_for_nullability
  set_null r idx = do
    checked ← check_column_for_nullability r idx
    set ← bit_insert r.set_columns idx
    null ← bit_insert r.null_columns idx
    ok (record r {
      set_columns = set;
      null_columns = null;
      row_indirect_data = vec_map.delete r.row_indirect_data idx;
    })

  module _ {V : Type 0} (T : Value V) where
    -- Where the value of a cell goes.
    unfoldable pub set_value : Row M → ℕ → V → Outcome (Row M)
    unfolding slice splice offset_of
    set_value r idx value =
        if T.var_len
        then (do
          bytes ← T.indirect_data value
          ok (record r { row_indirect_data = vec_map.put r.row_indirect_data idx bytes }))
        else (do
          at ← offset_of r.schema idx
          dest ← slice r.row_data at T.value_size
          written ← T.copy_data value dest
          ok (record r { row_data = splice r.row_data at written }))

    -- The `debug_assert_eq!` of the check is left out, as in a release.
    unfoldable pub set_unchecked : Row M → ℕ → V → Outcome (Row M)
    unfolding set_value
    set_unchecked r idx value = do
      set ← bit_insert r.set_columns idx
      (if T.is_null value
          then (do
            null ← bit_insert r.null_columns idx
            ok (record r {
              set_columns = set;
              null_columns = null;
              row_indirect_data = vec_map.delete r.row_indirect_data idx;
            }))
          else (do
            null ←
                (if r.schema.has_nullable_columns
                  then bit_remove r.null_columns idx
                  else ok r.null_columns)
            set_value (record r { set_columns = set; null_columns = null }) idx value))

    unfoldable pub set_cell : Row M → ℕ → V → Outcome (Row M)
    unfolding set_unchecked check_column_for_write
    set_cell r idx value = do checked ← check_column_for_write r idx T; set_unchecked r idx value

    -- Reading a cell that is set and not null.
    unfoldable pub get_value : Row M → ℕ → Outcome V
    unfolding slice offset_of
    get_value r idx =
        if T.var_len
        then elim (vec_map.find r.row_indirect_data idx) [
          | none ↦ panic
          | some bytes ↦ T.from_data bytes
        ]
        else (do
          at ← offset_of r.schema idx
          bytes ← slice r.row_data at T.value_size
          T.from_data bytes)

    unfoldable pub get_cell : Row M → ℕ → Outcome V
    unfolding get_value check_column_for_read
    get_cell r idx = do
      checked ← check_column_for_read r idx T
      set ← bit_get r.set_columns idx
      (if not set then err invalid_argument else (do
        null ← (if r.schema.has_nullable_columns then bit_get r.null_columns idx else ok false)
        (if null
            then (if T.nullable then T.from_null else err invalid_argument)
            else get_value r idx)))

    unfoldable pub set_by_name : Row M → List ℕ → V → Outcome (Row M)
    unfolding set_cell
    set_by_name r name value = elim (column_index r.schema name) [
      | none ↦ err invalid_argument
      | some idx ↦ set_cell r idx value
    ]

  -- The result type makes this read with `get::<Option<V>>`.
  unfoldable pub get_by_name : {V : Type 0} → Value V → Row M → List ℕ → Outcome (Option V)
  unfolding get_cell option_value
  get_by_name T r name = elim (column_index r.schema name) [
    | none ↦ err invalid_argument
    | some idx ↦ get_cell (option_value T) r idx
  ]

  unfoldable pub set_null_by_name : Row M → List ℕ → Outcome (Row M)
  unfolding set_null
  set_null_by_name r name = elim (column_index r.schema name) [
    | none ↦ err invalid_argument
    | some idx ↦ set_null r idx
  ]
