-- ===== src/Key/Columns/Steps.antt =====
-- One column of a key of src/key.rs, encoded and decoded.
use kudu_rs.Base.{
  Bool, List, [], ap, false, get_elem?, if◌then◌else◌, ok, refl, some, sym, true, ℕ, ◌++◌, ◌<◌, ◌^◌,
  ◌∙◌, ◌≡◌, ◌≢◌,
}
use kudu_rs.ByteOrder.{BigEndian, LittleEndian}
use kudu_rs.Key.Binary.{encode_binary}
use kudu_rs.Key.Columns.{decode_column, decode_typed, encode_column, encode_typed}
use kudu_rs.Key.Ints.{encode_int}
use kudu_rs.Row.{Row, VecMap, check_column_for_read, get_cell, set_unchecked}
use kudu_rs.Row.Columns.{IsRow}
use kudu_rs.Row.SetGet.{CanWrite, set_cell-get_cell, set_cell-unchecked}
use kudu_rs.Schema.{Column}
use kudu_rs.Types.{DataType, binary, int16, int32, int64, int8, size, string, timestamp}
use kudu_rs.Value.{Value, bytes_value, i16_value, i32_value, i64_value, i8_value, str_value}
use kudu_rs.Value.Lawful.{IsLawful}

-- The value of a key column.
pub data KeyValue : Type 0 where
  number_key : ℕ → KeyValue
  text_key : List ℕ → KeyValue

module _ {M : Type 0} (vec_map : VecMap M) (big_endian : BigEndian) (little_endian : LittleEndian)
    (is_utf8 : List ℕ → Bool) where
  -- A cell has a value that can stand in a key.
  unfoldable pub HasKey : DataType → Row M → ℕ → KeyValue → Type 0
  HasKey int8 r idx (number_key x) = (get_cell vec_map i8_value r idx ≡ ok x) × (x < 256 ^ 1)
  HasKey int16 r idx (number_key x) =
      (get_cell vec_map (i16_value little_endian) r idx ≡ ok x) × (x < 256 ^ 2)
  HasKey int32 r idx (number_key x) =
      (get_cell vec_map (i32_value little_endian) r idx ≡ ok x) × (x < 256 ^ 4)
  HasKey int64 r idx (number_key x) =
      (get_cell vec_map (i64_value little_endian) r idx ≡ ok x) × (x < 256 ^ 8)
  HasKey timestamp r idx (number_key x) =
      (get_cell vec_map (i64_value little_endian) r idx ≡ ok x) × (x < 256 ^ 8)
  HasKey binary r idx (text_key v) = get_cell vec_map bytes_value r idx ≡ ok v
  HasKey string r idx (text_key v) = get_cell vec_map (str_value is_utf8) r idx ≡ ok v
  HasKey _ r idx v = ⊥

  -- The bytes of a value in a key.
  unfoldable pub value_code : DataType → Bool → KeyValue → List ℕ
  value_code int8 is_last (number_key x) = encode_int big_endian 1 x []
  value_code int16 is_last (number_key x) = encode_int big_endian 2 x []
  value_code int32 is_last (number_key x) = encode_int big_endian 4 x []
  value_code int64 is_last (number_key x) = encode_int big_endian 8 x []
  value_code timestamp is_last (number_key x) = encode_int big_endian 8 x []
  value_code binary is_last (text_key v) = encode_binary v is_last []
  value_code string is_last (text_key v) = encode_binary v is_last []
  value_code _ is_last v = []

  module _ (cs : List Column) (idx : ℕ) (c : Column) (at_index : get_elem? cs idx ≡ some c) where
    pub check_read-ok :
        {V : Type 0} (T : Value V) (r : Row M)
        → IsRow cs r
        → T.can_read_from c.data_type ≡ true
        → T.nullable ≡ false
        → check_column_for_read r idx T ≡ ok tt
    unfolding check_column_for_read
    check_read-ok T r row readable not_nullable =
        rw
          (
            check_column_for_read,
            ap (λ (x : List Column). get_elem? x idx) row.laid_out.has_columns ∙ at_index,
            readable,
            not_nullable,
          )
          refl

    -- The cells other than `idx` read as before.
    unfoldable pub Others : Row M → Row M → Type 1
    Others r r' =
        (W : Type 0) (U : Value W) (j : ℕ)
        → ((t : DataType) → U.can_read_from t ≡ true → size t ≡ U.value_size)
        → idx ≢ j
        → get_cell vec_map U r' j ≡ get_cell vec_map U r j

    pub put_unchecked :
        {V : Type 0} (T : Value V) (v : V) (r : Row M)
        → IsRow cs r
        → IsLawful T v
        → T.can_write_to c.data_type ≡ true
        → T.can_read_from c.data_type ≡ true
        → T.nullable ≡ false
        → (r' : Row M) × (set_unchecked vec_map T r idx v ≡ ok r')
          × IsRow cs r'
          × (get_cell vec_map T r' idx ≡ ok v)
          × Others r r'
    unfolding Others
    put_unchecked T v r row lawful writes readable not_nullable =
        let can : CanWrite vec_map cs idx T = record {
          column = c;
          at_index = at_index;
          has_type = writes;
          allows_null = λ e. cc;
        } in
        let (r', set_ok, row', back, others) =
          set_cell-get_cell vec_map cs idx T v r row can lawful in
        (
          r',
          sym (set_cell-unchecked vec_map cs idx T v r row can) ∙ set_ok,
          row',
          back ∙ rw (check_read-ok T r row readable not_nullable) refl,
          others,
        )

    -- A column that is encoded, and decoded into another row, from any bytes that may follow.
    pub record Step (r : Row M) (is_last : Bool) (buf : List ℕ) (v : KeyValue) : Type 1 where
      pub code : List ℕ
      pub code_is : code ≡ value_code c.data_type is_last v
      pub encoded :
          encode_column vec_map big_endian little_endian is_utf8 r idx is_last buf
          ≡ ok (buf ++ code)
      pub decoded :
          (into : Row M) (rest : List ℕ)
          → IsRow cs into
          → (if is_last then rest ≡ [] else Unit {0})
          → (r' : Row M) × (decode_column vec_map big_endian little_endian is_utf8 into idx is_last
                (code ++ rest)
              ≡ ok (r', rest))
            × IsRow cs r'
            × HasKey c.data_type r' idx v
            × Others into r'

    -- From the type of the column to the column.
    pub encode_column-typed :
        (t : DataType) (r : Row M) (is_last : Bool) (buf : List ℕ)
        → IsRow cs r
        → c.data_type ≡ t
        → encode_column vec_map big_endian little_endian is_utf8 r idx is_last buf
          ≡ encode_typed vec_map big_endian little_endian is_utf8 t r idx is_last buf
    unfolding encode_column
    encode_column-typed t r is_last buf row e =
        rw
          (
            encode_column,
            ap (λ (x : List Column). get_elem? x idx) row.laid_out.has_columns ∙ at_index,
            e,
          )
          refl

    pub decode_column-typed :
        (t : DataType) (r : Row M) (is_last : Bool) (key : List ℕ)
        → IsRow cs r
        → c.data_type ≡ t
        → decode_column vec_map big_endian little_endian is_utf8 r idx is_last key
          ≡ decode_typed vec_map big_endian little_endian is_utf8 t r idx is_last key
    unfolding decode_column
    decode_column-typed t r is_last key row e =
        rw
          (
            decode_column,
            ap (λ (x : List Column). get_elem? x idx) row.laid_out.has_columns ∙ at_index,
            e,
          )
          refl
