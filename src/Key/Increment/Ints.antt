-- ===== src/Key/Increment/Ints.antt =====
-- The integer types that `increment_cell` of src/key.rs increments.
use kudu_rs.Base.{
  Bool, List, arith, get_elem?, if◌then◌else◌, not, ok, refl, some, ℕ, ◌%◌, ◌*◌, ◌+◌, ◌-◌, ◌==◌,
  ◌^◌, ◌≡◌,
}
use kudu_rs.ByteOrder.{LittleEndian}
use kudu_rs.Key.Increment.{increment_cell, increment_typed}
use kudu_rs.Key.Increment.Cells.{IntColumn, Present, SameOthers, increment_cell-column}
use kudu_rs.Row.{Row, VecMap, get_cell}
use kudu_rs.Row.Columns.{IsRow}
use kudu_rs.Schema.{Column}
use kudu_rs.Types.{
  DataType, binary, bool, double, eq_data_type, float, int16, int32, int64, int8, size, string,
  timestamp, variant,
}
use kudu_rs.Value.{i16_value, i32_value, i64_value, i8_value, number_value}
use kudu_rs.Value.Lawful.{
  i16_value-IsLawful, i32_value-IsLawful, i64_value-IsLawful, i8_value-IsLawful,
}

-- The pattern of the greatest integer of as many bits as a column of a type has, and of the
-- integer after one.
abbrev pub top_int : DataType → ℕ
top_int t = 2 ^ (8 * size t - 1) - 1

abbrev pub after_int : DataType → ℕ → ℕ
after_int t x = if x == top_int t then x else (x + 1) % 2 ^ (8 * size t)

module _ {M : Type 0} (vec_map : VecMap M) (little_endian : LittleEndian) (idx : ℕ) where
  -- A cell of an integer column that reads as the integer of a pattern.
  unfoldable pub HoldsInt : DataType → Row M → ℕ → Type 0
  HoldsInt int8 r x = get_cell vec_map i8_value r idx ≡ ok x
  HoldsInt int16 r x = get_cell vec_map (i16_value little_endian) r idx ≡ ok x
  HoldsInt int32 r x = get_cell vec_map (i32_value little_endian) r idx ≡ ok x
  HoldsInt int64 r x = get_cell vec_map (i64_value little_endian) r idx ≡ ok x
  HoldsInt timestamp r x = get_cell vec_map (i64_value little_endian) r idx ≡ ok x
  HoldsInt _ r x = ⊥

module _ {M : Type 0} (vec_map : VecMap M) (little_endian : LittleEndian)
    (next_f32 next_f64 : ℕ → ℕ) (cs : List Column) (idx : ℕ) (c : Column)
    (at_index : get_elem? cs idx ≡ some c) where
  int8-IntColumn :
      IntColumn vec_map little_endian next_f32 next_f64 cs idx c at_index int8 1 i8_value
  unfolding increment_typed i8_value eq_data_type variant
  int8-IntColumn = record {
    arm = λ r. refl;
    lawful = λ x h. i8_value-IsLawful x;
    writes = refl;
    not_nullable = refl;
    in_range = λ x. omega arith;
  }

  int16-IntColumn :
      IntColumn vec_map little_endian next_f32 next_f64 cs idx c at_index int16 2
        (i16_value little_endian)
  unfolding increment_typed i16_value number_value eq_data_type variant
  int16-IntColumn = record {
    arm = λ r. refl;
    lawful = λ x h. i16_value-IsLawful little_endian x h;
    writes = refl;
    not_nullable = refl;
    in_range = λ x. omega arith;
  }

  int32-IntColumn :
      IntColumn vec_map little_endian next_f32 next_f64 cs idx c at_index int32 4
        (i32_value little_endian)
  unfolding increment_typed i32_value number_value eq_data_type variant
  int32-IntColumn = record {
    arm = λ r. refl;
    lawful = λ x h. i32_value-IsLawful little_endian x h;
    writes = refl;
    not_nullable = refl;
    in_range = λ x. omega arith;
  }

  int64-IntColumn :
      IntColumn vec_map little_endian next_f32 next_f64 cs idx c at_index int64 8
        (i64_value little_endian)
  unfolding increment_typed i64_value number_value eq_data_type variant
  int64-IntColumn = record {
    arm = λ r. refl;
    lawful = λ x h. i64_value-IsLawful little_endian x h;
    writes = refl;
    not_nullable = refl;
    in_range = λ x. omega arith;
  }

  timestamp-IntColumn :
      IntColumn vec_map little_endian next_f32 next_f64 cs idx c at_index timestamp 8
        (i64_value little_endian)
  unfolding increment_typed i64_value number_value eq_data_type variant
  timestamp-IntColumn = record {
    arm = λ r. refl;
    lawful = λ x h. i64_value-IsLawful little_endian x h;
    writes = refl;
    not_nullable = refl;
    in_range = λ x. omega arith;
  }

  unfoldable Incremented : DataType → ℕ → Row M → Type 1
  Incremented t x r =
      (r' : Row M) × (incremented : Bool) × (increment_cell vec_map little_endian next_f32 next_f64
          r idx
        ≡ ok (r', incremented))
      × IsRow cs r'
      × (incremented ≡ not (x == top_int t))
      × HoldsInt vec_map little_endian idx t r' (after_int t x)
      × SameOthers vec_map little_endian next_f32 next_f64 cs idx c at_index r r'

  by_type :
      (t : DataType) (x : ℕ) (r : Row M)
      → IsRow cs r
      → Present vec_map little_endian next_f32 next_f64 cs idx c at_index r
      → c.data_type ≡ t
      → HoldsInt vec_map little_endian idx t r x
      → Incremented t x r
  unfolding HoldsInt Incremented size
  by_type int8 x r row present e read =
      increment_cell-column vec_map little_endian next_f32 next_f64 cs idx c at_index int8 1
        i8_value x r int8-IntColumn row present e read
  by_type int16 x r row present e read =
      increment_cell-column vec_map little_endian next_f32 next_f64 cs idx c at_index int16 2
        (i16_value little_endian) x r int16-IntColumn row present e read
  by_type int32 x r row present e read =
      increment_cell-column vec_map little_endian next_f32 next_f64 cs idx c at_index int32 4
        (i32_value little_endian) x r int32-IntColumn row present e read
  by_type int64 x r row present e read =
      increment_cell-column vec_map little_endian next_f32 next_f64 cs idx c at_index int64 8
        (i64_value little_endian) x r int64-IntColumn row present e read
  by_type timestamp x r row present e read =
      increment_cell-column vec_map little_endian next_f32 next_f64 cs idx c at_index timestamp 8
        (i64_value little_endian) x r timestamp-IntColumn row present e read
  by_type bool x r row present e read = absurd read
  by_type float x r row present e read = absurd read
  by_type double x r row present e read = absurd read
  by_type binary x r row present e read = absurd read
  by_type string x r row present e read = absurd read

  -- Incrementing a present cell of an `Int8`, `Int16`, `Int32`, `Int64` or `Timestamp` column
  -- succeeds: of the greatest signed integer of as many bits as the column has it changes nothing and
  -- returns false, of any other it returns true, and the cell then reads as the next integer. Reading
  -- any other cell gives what it gave before, with any type of value that is as long as the columns
  -- it reads.
  pub increment_cell-int :
      (x : ℕ) (r : Row M)
      → IsRow cs r
      → Present vec_map little_endian next_f32 next_f64 cs idx c at_index r
      → HoldsInt vec_map little_endian idx c.data_type r x
      → (r' : Row M) × (incremented : Bool) × (increment_cell vec_map little_endian next_f32
            next_f64 r idx
          ≡ ok (r', incremented))
        × IsRow cs r'
        × (incremented ≡ not (x == top_int c.data_type))
        × HoldsInt vec_map little_endian idx c.data_type r' (after_int c.data_type x)
        × SameOthers vec_map little_endian next_f32 next_f64 cs idx c at_index r r'
  unfolding Incremented
  increment_cell-int x r row present read = by_type c.data_type x r row present refl read
