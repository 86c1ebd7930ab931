-- ===== src/Key/Columns/Compare.antt =====
-- `encode_primary_key` of src/key.rs keeps the order of rows.
use kudu_rs.Base.{
  Bool, List, [], ap, append-nil, append_assoc, arith, drop, drop-cons, get_elem?-inside, length,
  ok, refl, suc, sym, take, zero, ℕ, ◌++◌, ◌+◌, ◌==◌, ◌∙◌, ◌≡◌, ◌≤◌,
}
use kudu_rs.ByteOrder.{BigEndian, LittleEndian}
use kudu_rs.Bytes.{cmp_bytes}
use kudu_rs.Key.Columns.{encode_columns, encode_loop, encode_primary_key, indexes}
use kudu_rs.Key.Columns.Cases.{column-Step}
use kudu_rs.Key.Columns.Keys.{HasKeys, length-indexes}
use kudu_rs.Key.Columns.Order.{KeysFrom, cmp-keys_code, cmp_values, keys_code}
use kudu_rs.Key.Columns.Steps.{KeyValue}
use kudu_rs.Row.{Row, VecMap}
use kudu_rs.Row.Columns.{IsRow}
use kudu_rs.Row.Slices.{length-take}
use kudu_rs.Schema.{Column}

module _ {M : Type 0} (vec_map : VecMap M) (big_endian : BigEndian) (little_endian : LittleEndian)
    (is_utf8 : List ℕ → Bool) (cs : List Column) where
  -- The loop of `encode_columns` writes the key of the columns that are left.
  encode_loop-keys_code :
      (values : ℕ → KeyValue) (n : ℕ) (r : Row M) (idx k : ℕ) (buf : List ℕ)
      → idx + k ≡ n
      → n ≤ length cs
      → IsRow cs r
      → HasKeys vec_map big_endian little_endian is_utf8 cs values n r
      → encode_loop vec_map big_endian little_endian is_utf8 r n (suc idx) (indexes idx k) buf
        ≡ ok (
            buf
            ++ keys_code vec_map big_endian little_endian is_utf8 n idx
                (take k (drop idx cs))
                values)
  unfolding encode_loop indexes keys_code
  encode_loop-keys_code values n r idx zero buf whole fits row has = ap ok (sym (append-nil buf))
  encode_loop-keys_code values n r idx (suc k) buf whole fits row has =
      let (c, at_index) = get_elem?-inside cs idx (omega (arith, whole, fits)) in
      let s =
        column-Step vec_map big_endian little_endian is_utf8 cs idx c at_index c.data_type refl r
          (suc idx == n) buf (values idx) row (has idx c (omega (arith, whole)) at_index) in
      rw (s.encoded, drop-cons cs idx c at_index)
        (encode_loop-keys_code values n r (suc idx) k (buf ++ s.code) (omega (arith, whole)) fits
            row has
          ∙ ap ok (append_assoc buf s.code _ ∙ rw s.code_is refl))

  HasKeys-KeysFrom :
      (values : ℕ → KeyValue) (n : ℕ) (r : Row M) (idx k : ℕ)
      → idx + k ≡ n
      → n ≤ length cs
      → HasKeys vec_map big_endian little_endian is_utf8 cs values n r
      → KeysFrom vec_map big_endian little_endian is_utf8 idx (take k (drop idx cs)) values r
  unfolding KeysFrom
  HasKeys-KeysFrom values n r idx zero whole fits has = tt
  HasKeys-KeysFrom values n r idx (suc k) whole fits has =
      let (c, at_index) = get_elem?-inside cs idx (omega (arith, whole, fits)) in
      rw (drop-cons cs idx c at_index) (
        has idx c (omega (arith, whole)) at_index,
        HasKeys-KeysFrom values n r (suc idx) k (omega (arith, whole)) fits has,
      )

  encodes :
      (n : ℕ) (values : ℕ → KeyValue) (r : Row M)
      → n ≤ length cs
      → r.schema.num_primary_key_columns ≡ n
      → IsRow cs r
      → HasKeys vec_map big_endian little_endian is_utf8 cs values n r
      → encode_primary_key vec_map big_endian little_endian is_utf8 r
        ≡ ok (keys_code vec_map big_endian little_endian is_utf8 n 0 (take n cs) values)
  unfolding encode_primary_key encode_columns
  encodes n values r fits num row has =
      ap
        (λ (m : ℕ).
          encode_loop vec_map big_endian little_endian is_utf8 r (length (indexes 0 m)) 1
            (indexes 0 m) [])
        num
      ∙ rw (length-indexes 0 n) (encode_loop-keys_code values n r 0 n [] (omega arith) fits row has)

  -- The primary keys of two rows of the same columns, whose `n` key columns have values that can
  -- stand in a key, are encoded, and compare as these values do, the first column that differs first:
  -- integers as signed integers, strings and binary values as byte strings.
  pub cmp_bytes-encode_primary_key :
      (n : ℕ) (v w : ℕ → KeyValue) (a b : Row M)
      → n ≤ length cs
      → (a.schema.num_primary_key_columns ≡ n) × (b.schema.num_primary_key_columns ≡ n)
      → IsRow cs a × IsRow cs b
      → HasKeys vec_map big_endian little_endian is_utf8 cs v n a
      → HasKeys vec_map big_endian little_endian is_utf8 cs w n b
      → (x y : List ℕ) × (encode_primary_key vec_map big_endian little_endian is_utf8 a ≡ ok x)
        × (encode_primary_key vec_map big_endian little_endian is_utf8 b ≡ ok y)
        × (cmp_bytes x y ≡ cmp_values 0 (take n cs) v w)
  cmp_bytes-encode_primary_key n v w a b fits nums rows ha hb = (
    keys_code vec_map big_endian little_endian is_utf8 n 0 (take n cs) v,
    keys_code vec_map big_endian little_endian is_utf8 n 0 (take n cs) w,
    encodes n v a fits nums.0 rows.0 ha,
    encodes n w b fits nums.1 rows.1 hb,
    cmp-keys_code vec_map big_endian little_endian is_utf8 n 0 (take n cs) v w a b
        (omega (arith, length-take n cs fits)) (HasKeys-KeysFrom v n a 0 n (omega arith) fits ha)
        (HasKeys-KeysFrom w n b 0 n (omega arith) fits hb),
  )
