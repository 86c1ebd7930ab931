-- ===== src/Key/Rows/Cells.antt =====
-- The cells that `partial_cmp` of src/row.rs reads, and the columns it compares.
use kudu_rs.Base.{
  >>=-eq_ok, Bool, Error, List, Ordering, Outcome, ap, err, false, get_elem?, if◌then◌else◌,
  invalid_argument, length, not, ok, panic, refl, set, some, sym, true, ℕ, ◌<◌, ◌>>=◌, ◌∙◌, ◌≡◌,
}
use kudu_rs.BitSet.{get}
use kudu_rs.BitSet.Laws.{holds}
use kudu_rs.ByteOrder.{BigEndian, LittleEndian}
use kudu_rs.Bytes.{cmp_bytes}
use kudu_rs.Key.Columns.Order.{cmp_value}
use kudu_rs.Key.Columns.Steps.{HasKey, KeyValue, check_read-ok, number_key, text_key}
use kudu_rs.Key.Ints.Signed.{cmp_signed}
use kudu_rs.Key.Rows.{both_set, cmp_cells, cmp_column, cmp_time}
use kudu_rs.Key.Rows.Times.{cmp_time-us_to_time}
use kudu_rs.Row.{Row, VecMap, check_column_for_read, get_cell, get_value, offset_of, slice}
use kudu_rs.Row.Columns.{IsRow, cell_of, get_cell-cell, null_bit}
use kudu_rs.Schema.{Column}
use kudu_rs.Schema.Layout.{take-suc-width}
use kudu_rs.Time.{SystemTime, us_to_time}
use kudu_rs.Types.{
  DataType, binary, bool, double, eq_data_type, float, int16, int32, int64, int8, string, timestamp,
  variant,
}
use kudu_rs.Value.{
  Value, bytes_value, i16_value, i32_value, i64_value, i8_value, number_value, str_value,
  system_time_value,
}

set_of_bit :
    {A : Type 0} (set : Bool) (m : Outcome A) (a : A)
    → (if not set then err invalid_argument else m) ≡ ok a
    → set ≡ true
set_of_bit true m a h = refl
set_of_bit false m a h = cc

err_is_not_ok : {A : Type 0} (e : Error) (a : A) → err e ≡ ok a → ⊥
err_is_not_ok e a h = cc

-- A cell that was read is set.

get_cell-set :
    {M V : Type 0} (vec_map : VecMap M) (T : Value V) (r : Row M) (idx : ℕ) (v : V)
    → get_cell vec_map T r idx ≡ ok v
    → get r.set_columns idx ≡ ok true
unfolding get_cell
get_cell-set vec_map T r idx v h =
    let (checked, _, past) = >>=-eq_ok (check_column_for_read r idx T) _ v h in
    let (set, is_set, rest) = >>=-eq_ok (get r.set_columns idx) _ v past in
    is_set ∙ ap ok (set_of_bit set _ v rest)

cell_of-map :
    {V W : Type 0} (T : Value V) (U : Value W) (f : V → W) (set null : Bool) (value : Outcome V)
    (x : V)
    → T.nullable ≡ false
    → U.nullable ≡ false
    → cell_of T set null value ≡ ok x
    → cell_of U set null (value >>= λ v. ok (f v)) ≡ ok (f x)
cell_of-map T U f false null value x nt nu h = cc
cell_of-map T U f true true value x nt nu h =
    absurd (err_is_not_ok invalid_argument x (sym (rw nt refl) ∙ h))
cell_of-map T U f true false value x nt nu h = rw h refl

module _ {M : Type 0} (vec_map : VecMap M) (little_endian : LittleEndian) (r : Row M)
    (idx : ℕ) where
  -- What is read as a time is the time of what is read as a number.
  get_value-time :
      get_value vec_map (system_time_value little_endian) r idx
      ≡ (get_value vec_map (i64_value little_endian) r idx >>= λ us. ok (us_to_time us))
  unfolding get_value system_time_value i64_value number_value
  get_value-time = of_offset (offset_of r.schema idx)
    where
      of_bytes :
          (m : Outcome (List ℕ))
          → (m >>= λ bytes. little_endian.read_from_le 8 bytes >>= λ us. ok (us_to_time us))
            ≡ (m >>= (λ bytes. little_endian.read_from_le 8 bytes) >>= λ us. ok (us_to_time us))
      of_bytes panic = refl
      of_bytes (err e) = refl
      of_bytes (ok bytes) = refl

      of_offset :
          (m : Outcome ℕ)
          → (m >>= λ at. slice r.row_data at 8 >>= λ bytes.
              little_endian.read_from_le 8 bytes >>= λ us. ok (us_to_time us))
            ≡ (m
                >>= (λ at. slice r.row_data at 8 >>= λ bytes. little_endian.read_from_le 8 bytes)
                >>= λ us. ok (us_to_time us))
      of_offset panic = refl
      of_offset (err e) = refl
      of_offset (ok at) = of_bytes (slice r.row_data at 8)

module _ {M : Type 0} (vec_map : VecMap M) (little_endian : LittleEndian) (is_utf8 : List ℕ → Bool)
    (cs : List Column) (idx : ℕ) (c : Column) (at_idx : get_elem? cs idx ≡ some c) where
  get_cell-time :
      (big_endian : BigEndian) (r : Row M) (x : ℕ)
      → IsRow cs r
      → c.data_type ≡ timestamp
      → get_cell vec_map (i64_value little_endian) r idx ≡ ok x
      → get_cell vec_map (system_time_value little_endian) r idx ≡ ok (us_to_time x)
  get_cell-time big_endian r x row of_type h =
      get_cell-cell vec_map (system_time_value little_endian) cs r idx row inside
      ∙ rw
          (check_read-ok vec_map big_endian little_endian is_utf8 cs idx c at_idx
            (system_time_value little_endian) r row
            (unfold system_time_value eq_data_type variant in rw of_type refl)
            (unfold system_time_value in refl))
          (ap
              (λ (m : Outcome SystemTime).
                cell_of (system_time_value little_endian) (holds r.set_columns idx) (null_bit r idx)
                  m)
              (get_value-time vec_map little_endian r idx)
            ∙ cell_of-map (i64_value little_endian) (system_time_value little_endian) us_to_time
                (holds r.set_columns idx) (null_bit r idx)
                (get_value vec_map (i64_value little_endian) r idx) x
                (unfold i64_value number_value in refl) (unfold system_time_value in refl) read)
    where
      inside : idx < length cs
      inside = (take-suc-width cs idx c at_idx).1

      read :
          cell_of
            (i64_value little_endian)
            (holds r.set_columns idx)
            (null_bit r idx)
            (get_value vec_map (i64_value little_endian) r idx)
          ≡ ok x
      read =
          sym (
            get_cell-cell vec_map (i64_value little_endian) cs r idx row inside
            ∙ rw
                (check_read-ok vec_map big_endian little_endian is_utf8 cs idx c at_idx
                  (i64_value little_endian) r row
                  (unfold i64_value number_value eq_data_type variant in rw of_type refl)
                  (unfold i64_value number_value in refl))
                refl)
          ∙ h

module _ {M : Type 0} (vec_map : VecMap M) (big_endian : BigEndian) (little_endian : LittleEndian)
    (is_utf8 : List ℕ → Bool) where
  -- Column `idx` of two rows, which holds `v` and `w`, is set and compared.
  unfoldable pub Compared : DataType → Row M → Row M → ℕ → KeyValue → KeyValue → Type 0
  Compared t a b idx v w =
      (both_set a b idx ≡ ok true)
      × (cmp_column vec_map little_endian is_utf8 t a b idx ≡ ok (cmp_value t v w))

  module _ (a b : Row M) (idx : ℕ) where
    cells-compared :
        {V : Type 0} (T : Value V) (cmp : V → V → Ordering) (x y : V)
        → get_cell vec_map T a idx ≡ ok x
        → get_cell vec_map T b idx ≡ ok y
        → (both_set a b idx ≡ ok true)
          × (cmp_cells vec_map little_endian is_utf8 T cmp a b idx ≡ ok (cmp x y))
    unfolding both_set cmp_cells
    cells-compared T cmp x y hx hy = (
      rw (get_cell-set vec_map T a idx x hx, get_cell-set vec_map T b idx y hy) refl,
      rw (hx, hy) refl,
    )

    module _ (cs : List Column) (c : Column) (at_idx : get_elem? cs idx ≡ some c)
        (row_a : IsRow cs a) (row_b : IsRow cs b) where
      pub column-Compared :
          (t : DataType) (v w : KeyValue)
          → c.data_type ≡ t
          → HasKey vec_map big_endian little_endian is_utf8 t a idx v
          → HasKey vec_map big_endian little_endian is_utf8 t b idx w
          → Compared t a b idx v w
      unfolding HasKey Compared cmp_column cmp_value
      column-Compared int8 (number_key x) (number_key y) e hx hy =
          cells-compared i8_value (cmp_signed 1) x y hx.0 hy.0
      column-Compared int16 (number_key x) (number_key y) e hx hy =
          cells-compared (i16_value little_endian) (cmp_signed 2) x y hx.0 hy.0
      column-Compared int32 (number_key x) (number_key y) e hx hy =
          cells-compared (i32_value little_endian) (cmp_signed 4) x y hx.0 hy.0
      column-Compared int64 (number_key x) (number_key y) e hx hy =
          cells-compared (i64_value little_endian) (cmp_signed 8) x y hx.0 hy.0
      column-Compared timestamp (number_key x) (number_key y) e hx hy =
          let time = get_cell-time vec_map little_endian is_utf8 cs idx c at_idx big_endian in
          let compared =
            cells-compared (system_time_value little_endian) cmp_time (us_to_time x) (us_to_time y)
              (time a x row_a e hx.0) (time b y row_b e hy.0) in
          (compared.0, compared.1 ∙ ap ok (cmp_time-us_to_time x y hx.1 hy.1))
      column-Compared binary (text_key v) (text_key w) e hx hy =
          cells-compared bytes_value cmp_bytes v w hx hy
      column-Compared string (text_key v) (text_key w) e hx hy =
          cells-compared (str_value is_utf8) cmp_bytes v w hx hy
      column-Compared int8 (text_key v) w e hx hy = absurd hx
      column-Compared int8 (number_key x) (text_key w) e hx hy = absurd hy
      column-Compared int16 (text_key v) w e hx hy = absurd hx
      column-Compared int16 (number_key x) (text_key w) e hx hy = absurd hy
      column-Compared int32 (text_key v) w e hx hy = absurd hx
      column-Compared int32 (number_key x) (text_key w) e hx hy = absurd hy
      column-Compared int64 (text_key v) w e hx hy = absurd hx
      column-Compared int64 (number_key x) (text_key w) e hx hy = absurd hy
      column-Compared timestamp (text_key v) w e hx hy = absurd hx
      column-Compared timestamp (number_key x) (text_key w) e hx hy = absurd hy
      column-Compared binary (number_key x) w e hx hy = absurd hx
      column-Compared binary (text_key v) (number_key y) e hx hy = absurd hy
      column-Compared string (number_key x) w e hx hy = absurd hx
      column-Compared string (text_key v) (number_key y) e hx hy = absurd hy
      column-Compared bool v w e hx hy = absurd hx
      column-Compared float v w e hx hy = absurd hx
      column-Compared double v w e hx hy = absurd hx
