-- ===== src/Key/Rows.antt =====
-- The `partial_cmp` of rows in src/row.rs, which compares rows by their primary key columns.
pub mod Times
pub mod Cells
pub mod Compare
mod Runs
use kudu_rs.Base.{
  Bool, List, Option, Ordering, Outcome, [], compare, false, if◌then◌else◌, none, not, ok, panic,
  set, some, suc, ℕ, ◌&&◌, ◌==◌, ◌>>=◌, ◌∷◌,
}
use kudu_rs.BitSet.{get}
use kudu_rs.ByteOrder.{LittleEndian}
use kudu_rs.Bytes.{cmp_bytes, then_cmp}
use kudu_rs.Key.Increment.{unwrap}
use kudu_rs.Key.Ints.Signed.{cmp_signed}
use kudu_rs.Row.{Row, VecMap, get_cell}
use kudu_rs.Schema.{Column, primary_key}
use kudu_rs.Schema.Equality.{eq_schema}
use kudu_rs.Time.{Duration, SystemTime, before_epoch, since_epoch}
use kudu_rs.Types.{
  DataType, binary, bool, double, float, int16, int32, int64, int8, string, timestamp,
}
use kudu_rs.Value.{
  Value, bytes_value, i16_value, i32_value, i64_value, i8_value, str_value, system_time_value,
}

-- The order of durations of less than a second of nanoseconds, and of `SystemTime`: both are the
-- standard library's.
unfoldable pub cmp_duration : Duration → Duration → Ordering
cmp_duration d e = then_cmp (compare d.secs e.secs) (compare d.nanos e.nanos)

abbrev pub is_empty_duration : Duration → Bool
is_empty_duration d = (d.secs == 0) && (d.nanos == 0)

unfoldable pub cmp_time : SystemTime → SystemTime → Ordering
unfolding cmp_duration
cmp_time (since_epoch d) (since_epoch e) = cmp_duration d e
cmp_time (since_epoch d) (before_epoch e) =
    if is_empty_duration d && is_empty_duration e then Ordering.eq else Ordering.gt
cmp_time (before_epoch d) (since_epoch e) =
    if is_empty_duration d && is_empty_duration e then Ordering.eq else Ordering.lt
cmp_time (before_epoch d) (before_epoch e) = cmp_duration e d

-- `if ord != cmp::Ordering::Equal { return Some(ord); }`, before what is left of the loop.
abbrev pub or_rest : Ordering → Outcome (Option Ordering) → Outcome (Option Ordering)
or_rest Ordering.lt rest = ok (some Ordering.lt)
or_rest Ordering.eq rest = rest
or_rest Ordering.gt rest = ok (some Ordering.gt)

module _ {M : Type 0} where
  -- `self.set_columns.get(idx) && other.set_columns.get(idx)`
  unfoldable pub both_set : Row M → Row M → ℕ → Outcome Bool
  both_set a b idx = do
    set ← get a.set_columns idx
    (if set then get b.set_columns idx else ok false)

module _ {M : Type 0} (vec_map : VecMap M) (little_endian : LittleEndian)
    (is_utf8 : List ℕ → Bool) where
  -- An arm of the match: both cells are read, or the call panics.
  unfoldable pub cmp_cells :
      {V : Type 0} → Value V → (V → V → Ordering) → Row M → Row M → ℕ → Outcome Ordering
  cmp_cells T cmp a b idx = do
    x ← unwrap (get_cell vec_map T a idx)
    y ← unwrap (get_cell vec_map T b idx)
    ok (cmp x y)

  unfoldable pub cmp_column : DataType → Row M → Row M → ℕ → Outcome Ordering
  unfolding cmp_cells
  cmp_column int8 a b idx = cmp_cells i8_value (cmp_signed 1) a b idx
  cmp_column int16 a b idx = cmp_cells (i16_value little_endian) (cmp_signed 2) a b idx
  cmp_column int32 a b idx = cmp_cells (i32_value little_endian) (cmp_signed 4) a b idx
  cmp_column int64 a b idx = cmp_cells (i64_value little_endian) (cmp_signed 8) a b idx
  cmp_column timestamp a b idx = cmp_cells (system_time_value little_endian) cmp_time a b idx
  cmp_column binary a b idx = cmp_cells bytes_value cmp_bytes a b idx
  cmp_column string a b idx = cmp_cells (str_value is_utf8) cmp_bytes a b idx
  cmp_column bool a b idx = panic
  cmp_column float a b idx = panic
  cmp_column double a b idx = panic

  -- The loop, at index `idx`, over the columns that are left.
  unfoldable pub partial_cmp_loop : ℕ → List Column → Row M → Row M → Outcome (Option Ordering)
  unfolding cmp_column both_set
  partial_cmp_loop idx [] a b = ok (some Ordering.eq)
  partial_cmp_loop idx (column ∷ rest) a b = do
    set ← both_set a b idx
    let left = partial_cmp_loop (suc idx) rest a b
    (if set then (cmp_column column.data_type a b idx >>= λ ord. or_rest ord left) else ok none)

  unfoldable pub partial_cmp : Row M → Row M → Outcome (Option Ordering)
  unfolding partial_cmp_loop eq_schema primary_key
  partial_cmp a b =
      if not (eq_schema a.schema b.schema)
      then ok none
      else primary_key a.schema >>= λ columns. partial_cmp_loop 0 columns a b
