-- ===== src/Key/Increment.antt =====
-- `increment_cell` and `is_cell_incremented` of src/key.rs. The next float (`Ieee754::next` of the
-- crate ieee754) is a parameter; a float is its bits.
pub mod Cells
pub mod Ints
mod Runs
use kudu_rs.Base.{
  Bool, Ordering, Outcome, [], err, false, get_elem?, get_or, if◌then◌else◌, length, ltb, none, not,
  ok, panic, some, take, true, ℕ, ◌%◌, ◌&&◌, ◌*◌, ◌++◌, ◌+◌, ◌-◌, ◌==◌, ◌>>=◌, ◌^◌, ◌||◌, ◌∷◌,
}
use kudu_rs.ByteOrder.{LittleEndian}
use kudu_rs.Bytes.{eq_bytes}
use kudu_rs.Key.Ints.Signed.{cmp_signed}
use kudu_rs.Row.{Row, VecMap, get_cell, is_row_null, is_row_set, set_cell}
use kudu_rs.Schema.Equality.{eq_schema}
use kudu_rs.Types.{
  DataType, binary, bool, double, float, int16, int32, int64, int8, string, timestamp,
}
use kudu_rs.Value.{
  Value, bool_value, bytes_value, f32_value, f64_value, i16_value, i32_value, i64_value, i8_value,
}

-- `unwrap`
abbrev pub unwrap {ℓ} : {A : Type ℓ} → Outcome A → Outcome A
unwrap panic = panic
unwrap (err e) = panic
unwrap (ok value) = ok value

-- `iN::MAX` and `x + 1` of an integer of `n` bytes, on the patterns
abbrev pub max_int : ℕ → ℕ
max_int n = 2 ^ (8 * n - 1) - 1

abbrev pub next_int : ℕ → ℕ → ℕ
next_int n x = (x + 1) % 2 ^ (8 * n)

-- `==`, `is_nan` and the bits of `INFINITY` of a float with a sign bit on top of `magnitude` bits.
abbrev pub is_nan : ℕ → ℕ → ℕ → Bool
is_nan magnitude infinity x = ltb infinity (x % 2 ^ magnitude)

abbrev pub eq_float : ℕ → ℕ → ℕ → ℕ → Bool
eq_float magnitude infinity x y =
    not (is_nan magnitude infinity x)
    && not (is_nan magnitude infinity y)
    && ((x == y) || ((x % 2 ^ magnitude == 0) && (y % 2 ^ magnitude == 0)))

abbrev pub infinity_f32 : ℕ
infinity_f32 = 0x7f800000

abbrev pub infinity_f64 : ℕ
infinity_f64 = 0x7ff0000000000000

-- A float that has no successor.
abbrev pub is_last_float : ℕ → ℕ → ℕ → Bool
is_last_float magnitude infinity x =
    eq_float magnitude infinity x infinity || is_nan magnitude infinity x

abbrev pub is_less : Ordering → Bool
is_less Ordering.lt = true
is_less _ = false

module _ {M : Type 0} (vec_map : VecMap M) (little_endian : LittleEndian)
    (next_f32 next_f64 : ℕ → ℕ) where
  -- `!row.is_set(idx).unwrap() || row.is_null(idx).unwrap()`
  unfoldable pub is_absent : Row M → ℕ → Outcome Bool
  is_absent row idx = do
    is_set ← unwrap (is_row_set row idx)
    (if not is_set then ok true else unwrap (is_row_null row idx))

  -- The arms of the integers.
  unfoldable pub increment_int : Value ℕ → ℕ → Row M → ℕ → Outcome (Row M × Bool)
  increment_int T n row idx = do
    val ← unwrap (get_cell vec_map T row idx)
    (if val == max_int n
        then ok (row, false)
        else (do row ← unwrap (set_cell vec_map T row idx (next_int n val)); ok (row, true)))

  unfoldable pub increment_float : Value ℕ → ℕ → ℕ → (ℕ → ℕ) → Row M → ℕ → Outcome (Row M × Bool)
  increment_float T magnitude infinity next_float row idx = do
    val ← unwrap (get_cell vec_map T row idx)
    (if is_last_float magnitude infinity val
        then ok (row, false)
        else (do row ← unwrap (set_cell vec_map T row idx (next_float val)); ok (row, true)))

  unfoldable pub increment_bytes : Row M → ℕ → Outcome (Row M × Bool)
  increment_bytes row idx = do
    val ← unwrap (get_cell vec_map bytes_value row idx)
    row ← unwrap (set_cell vec_map bytes_value row idx (val ++ 0 ∷ []))
    ok (row, true)

  unfoldable pub increment_typed : DataType → Row M → ℕ → Outcome (Row M × Bool)
  unfolding increment_int increment_bytes increment_float
  increment_typed bool row idx = do
    val ← unwrap (get_cell vec_map bool_value row idx)
    (if val
        then ok (row, false)
        else (do row ← unwrap (set_cell vec_map bool_value row idx true); ok (row, true)))
  increment_typed int8 row idx = increment_int i8_value 1 row idx
  increment_typed int16 row idx = increment_int (i16_value little_endian) 2 row idx
  increment_typed int32 row idx = increment_int (i32_value little_endian) 4 row idx
  increment_typed int64 row idx = increment_int (i64_value little_endian) 8 row idx
  increment_typed timestamp row idx = increment_int (i64_value little_endian) 8 row idx
  increment_typed binary row idx = increment_bytes row idx
  increment_typed string row idx = increment_bytes row idx
  increment_typed float row idx =
      increment_float (f32_value little_endian) 31 infinity_f32 next_f32 row idx
  increment_typed double row idx =
      increment_float (f64_value little_endian) 63 infinity_f64 next_f64 row idx

  -- `increment_cell`, which returns whether it did.
  unfoldable pub increment_cell : Row M → ℕ → Outcome (Row M × Bool)
  unfolding is_absent increment_typed
  increment_cell row idx = do
    absent ← is_absent row idx
    (if absent then ok (row, false) else elim (get_elem? row.schema.columns idx) [
      | none ↦ panic
      | some c ↦ increment_typed c.data_type row idx
    ])

  -- `lower < iN::MAX && lower + 1 == upper`
  unfoldable pub is_int_incremented : Value ℕ → ℕ → Row M → Row M → ℕ → Outcome Bool
  is_int_incremented T n lower upper idx = do
    low ← unwrap (get_cell vec_map T lower idx)
    up ← unwrap (get_cell vec_map T upper idx)
    ok (is_less (cmp_signed n low (max_int n)) && (next_int n low == up))

  -- `lower.len() + 1 == upper.len() && lower == &upper[..lower.len()] && upper[upper.len() - 1] == 0`
  unfoldable pub is_bytes_incremented : Row M → Row M → ℕ → Outcome Bool
  is_bytes_incremented lower upper idx = do
    low ← unwrap (get_cell vec_map bytes_value lower idx)
    up ← unwrap (get_cell vec_map bytes_value upper idx)
    ok (
        (length low + 1 == length up)
        && eq_bytes low (take (length low) up)
        && (get_or up (length up - 1) 1 == 0))

  -- The arms of `Int64` and `Timestamp` read the cells as `i8`.
  unfoldable pub is_typed_incremented : DataType → Row M → Row M → ℕ → Outcome Bool
  unfolding is_int_incremented is_bytes_incremented
  is_typed_incremented bool lower upper idx = do
    low ← unwrap (get_cell vec_map bool_value lower idx)
    (if low then ok false else unwrap (get_cell vec_map bool_value upper idx))
  is_typed_incremented int8 lower upper idx = is_int_incremented i8_value 1 lower upper idx
  is_typed_incremented int16 lower upper idx =
      is_int_incremented (i16_value little_endian) 2 lower upper idx
  is_typed_incremented int32 lower upper idx =
      is_int_incremented (i32_value little_endian) 4 lower upper idx
  is_typed_incremented int64 lower upper idx = is_int_incremented i8_value 1 lower upper idx
  is_typed_incremented timestamp lower upper idx = is_int_incremented i8_value 1 lower upper idx
  is_typed_incremented binary lower upper idx = is_bytes_incremented lower upper idx
  is_typed_incremented string lower upper idx = is_bytes_incremented lower upper idx
  is_typed_incremented float lower upper idx = do
    low ← unwrap (get_cell vec_map (f32_value little_endian) lower idx)
    up ← unwrap (get_cell vec_map (f32_value little_endian) upper idx)
    ok (
        not (eq_float 31 infinity_f32 low infinity_f32)
        && eq_float 31 infinity_f32 (next_f32 low) up)
  is_typed_incremented double lower upper idx = do
    low ← unwrap (get_cell vec_map (f64_value little_endian) lower idx)
    up ← unwrap (get_cell vec_map (f64_value little_endian) upper idx)
    ok (
        not (eq_float 63 infinity_f64 low infinity_f64)
        && eq_float 63 infinity_f64 (next_f64 low) up)

  -- `is_cell_incremented`, which asserts that the schemas are the same.
  unfoldable pub is_cell_incremented : Row M → Row M → ℕ → Outcome Bool
  unfolding is_absent is_typed_incremented
  is_cell_incremented lower upper idx =
      if not (eq_schema lower.schema upper.schema) then panic else (do
        no_lower ← is_absent lower idx
        no_upper ← (if no_lower then ok true else is_absent upper idx)
        (if no_upper then ok false else elim (get_elem? lower.schema.columns idx) [
          | none ↦ panic
          | some c ↦ is_typed_incremented c.data_type lower upper idx
        ]))
