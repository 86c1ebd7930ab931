-- ===== src/Key/Columns/PrimaryKey.antt =====
-- `encode_primary_key` and `decode_primary_key` of src/key.rs against each other.
use kudu_rs.Base.{Bool, List, [], arith, length, ok, refl, ℕ, ◌≡◌, ◌≤◌}
use kudu_rs.ByteOrder.{BigEndian, LittleEndian}
use kudu_rs.Key.Columns.{decode_primary_key, encode_columns, encode_primary_key}
use kudu_rs.Key.Columns.Keys.{HasKeys, keys-Tail, length-indexes}
use kudu_rs.Key.Columns.Steps.{KeyValue}
use kudu_rs.Row.{Row, VecMap, new_row}
use kudu_rs.Row.Columns.{IsRow}
use kudu_rs.Row.Nulls.{new_row-IsRow}
use kudu_rs.Schema.{Column}

module _ {M : Type 0} (vec_map : VecMap M) (big_endian : BigEndian) (little_endian : LittleEndian)
    (is_utf8 : List ℕ → Bool) (cs : List Column) where
  -- A row whose key columns have values that can stand in a key has a primary key, from which a row
  -- with the same values in its key columns is decoded, as long as the schema has no more key
  -- columns than columns.
  pub decode-encode_primary_key :
      (values : ℕ → KeyValue) (r : Row M)
      → r.schema.num_primary_key_columns ≤ length cs
      → IsRow cs r
      → HasKeys vec_map big_endian little_endian is_utf8 cs values r.schema.num_primary_key_columns
          r
      → (key : List ℕ) × (encode_primary_key vec_map big_endian little_endian is_utf8 r ≡ ok key)
        × (r' : Row M) × (decode_primary_key vec_map big_endian little_endian is_utf8 r.schema key
            ≡ ok r')
        × IsRow cs r'
        × HasKeys vec_map big_endian little_endian is_utf8 cs values
            r.schema.num_primary_key_columns r'
  unfolding encode_primary_key encode_columns decode_primary_key
  decode-encode_primary_key values r fits row has =
      let n = r.schema.num_primary_key_columns in
      let t =
        keys-Tail vec_map big_endian little_endian is_utf8 cs values n r 0 n [] (omega arith) fits
          row has in
      let (r', decoded, row', has') =
        t.decoded (new_row vec_map r.schema) (new_row-IsRow vec_map cs r.schema row.laid_out)
          (λ j c below. absurd (omega (arith, below))) in
      (t.code, rw (length-indexes 0 n) t.encoded, r', rw decoded refl, row', has')
