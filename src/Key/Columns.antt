-- ===== src/Key/Columns.antt =====
-- The columns of a row's key in src/key.rs: primary keys and range partition keys. The functions
-- stand on the crates byteorder and vec_map and on the test for UTF-8 of the standard library.
pub mod Steps
pub mod Typed
pub mod Cases
pub mod Keys
pub mod PrimaryKey
pub mod Order
pub mod Compare
use kudu_rs.Base.{
  Bool, List, Outcome, [], drop, err, false, get_elem?, if◌then◌else◌, length, none, ok, panic,
  serialization, some, suc, true, zero, ℕ, ◌++◌, ◌+◌, ◌==◌, ◌>>=◌, ◌∷◌,
}
use kudu_rs.ByteOrder.{BigEndian, LittleEndian}
use kudu_rs.Key.Binary.{decode_binary, encode_binary}
use kudu_rs.Key.Ints.{decode_int, encode_int, flip_sign}
use kudu_rs.Row.{Row, VecMap, get_cell, new_row, set_unchecked}
use kudu_rs.Schema.{Schema}
use kudu_rs.Types.{
  DataType, binary, bool, double, float, int16, int32, int64, int8, string, timestamp,
}
use kudu_rs.Value.{bytes_value, first, i16_value, i32_value, i64_value, i8_value, str_value}

abbrev pub is_empty_key : List ℕ → Bool
is_empty_key [] = true
is_empty_key (b ∷ key) = false

-- The indexes from `idx` on, `n` of them.
unfoldable pub indexes : ℕ → ℕ → List ℕ
indexes idx zero = []
indexes idx (suc n) = idx ∷ indexes (suc idx) n

module _ {M : Type 0} (vec_map : VecMap M) (big_endian : BigEndian) (little_endian : LittleEndian)
    (is_utf8 : List ℕ → Bool) where
  unfoldable pub encode_typed : DataType → Row M → ℕ → Bool → List ℕ → Outcome (List ℕ)
  encode_typed int8 row idx is_last buf = do
    x ← get_cell vec_map i8_value row idx
    ok (buf ++ flip_sign 1 x ∷ [])
  encode_typed int16 row idx is_last buf = do
    x ← get_cell vec_map (i16_value little_endian) row idx
    ok (encode_int big_endian 2 x buf)
  encode_typed int32 row idx is_last buf = do
    x ← get_cell vec_map (i32_value little_endian) row idx
    ok (encode_int big_endian 4 x buf)
  encode_typed int64 row idx is_last buf = do
    x ← get_cell vec_map (i64_value little_endian) row idx
    ok (encode_int big_endian 8 x buf)
  encode_typed timestamp row idx is_last buf = do
    x ← get_cell vec_map (i64_value little_endian) row idx
    ok (encode_int big_endian 8 x buf)
  encode_typed binary row idx is_last buf = do
    v ← get_cell vec_map bytes_value row idx
    ok (encode_binary v is_last buf)
  encode_typed string row idx is_last buf = do
    v ← get_cell vec_map bytes_value row idx
    ok (encode_binary v is_last buf)
  encode_typed bool row idx is_last buf = panic
  encode_typed float row idx is_last buf = panic
  encode_typed double row idx is_last buf = panic

  -- `columns()[idx]` panics out of bounds.
  unfoldable pub encode_column : Row M → ℕ → Bool → List ℕ → Outcome (List ℕ)
  unfolding encode_typed
  encode_column row idx is_last buf = elim (get_elem? row.schema.columns idx) [
    | none ↦ panic
    | some c ↦ encode_typed c.data_type row idx is_last buf
  ]

  -- The loop of `encode_columns` at its `column`-th of `columns` columns.
  unfoldable pub encode_loop : Row M → ℕ → ℕ → List ℕ → List ℕ → Outcome (List ℕ)
  unfolding encode_column
  encode_loop row columns column [] buf = ok buf
  encode_loop row columns column (idx ∷ idxs) buf = do
    buf ← encode_column row idx (column == columns) buf
    encode_loop row columns (suc column) idxs buf

  unfoldable pub encode_columns : Row M → List ℕ → List ℕ → Outcome (List ℕ)
  unfolding encode_loop
  encode_columns row idxs buf = encode_loop row (length idxs) 1 idxs buf

  unfoldable pub encode_primary_key : Row M → Outcome (List ℕ)
  unfolding encode_columns indexes
  encode_primary_key row = encode_columns row (indexes 0 row.schema.num_primary_key_columns) []

  unfoldable pub decode_typed : DataType → Row M → ℕ → Bool → List ℕ → Outcome (Row M × List ℕ)
  decode_typed int8 row idx is_last key = do
    x ← first key
    row ← set_unchecked vec_map i8_value row idx (flip_sign 1 x)
    ok (row, drop 1 key)
  decode_typed int16 row idx is_last key = do
    r ← decode_int big_endian 2 key
    row ← set_unchecked vec_map (i16_value little_endian) row idx r.1
    ok (row, r.0)
  decode_typed int32 row idx is_last key = do
    r ← decode_int big_endian 4 key
    row ← set_unchecked vec_map (i32_value little_endian) row idx r.1
    ok (row, r.0)
  decode_typed int64 row idx is_last key = do
    r ← decode_int big_endian 8 key
    row ← set_unchecked vec_map (i64_value little_endian) row idx r.1
    ok (row, r.0)
  decode_typed timestamp row idx is_last key = do
    r ← decode_int big_endian 8 key
    row ← set_unchecked vec_map (i64_value little_endian) row idx r.1
    ok (row, r.0)
  decode_typed binary row idx is_last key = do
    r ← decode_binary key is_last
    row ← set_unchecked vec_map bytes_value row idx r.1
    ok (row, r.0)
  decode_typed string row idx is_last key = do
    r ← decode_binary key is_last
    checked ← (if is_utf8 r.1 then ok r.1 else err serialization)
    row ← set_unchecked vec_map (str_value is_utf8) row idx checked
    ok (row, r.0)
  decode_typed bool row idx is_last key = panic
  decode_typed float row idx is_last key = panic
  decode_typed double row idx is_last key = panic

  unfoldable pub decode_column : Row M → ℕ → Bool → List ℕ → Outcome (Row M × List ℕ)
  unfolding decode_typed
  decode_column row idx is_last key = elim (get_elem? row.schema.columns idx) [
    | none ↦ panic
    | some c ↦ decode_typed c.data_type row idx is_last key
  ]

  -- The loop of `decode_primary_key` over the indexes that are left.
  unfoldable pub decode_columns : ℕ → List ℕ → Row M → List ℕ → Outcome (Row M × List ℕ)
  unfolding decode_column
  decode_columns num [] row key = ok (row, key)
  decode_columns num (idx ∷ idxs) row key = do
    r ← decode_column row idx (idx + 1 == num) key
    decode_columns num idxs r.0 r.1

  unfoldable pub decode_primary_key : Schema → List ℕ → Outcome (Row M)
  unfolding decode_columns indexes new_row
  decode_primary_key schema key = do
    r ←
        decode_columns schema.num_primary_key_columns (indexes 0 schema.num_primary_key_columns)
          (new_row vec_map schema) key
    (if is_empty_key r.1 then ok r.0 else err serialization)
