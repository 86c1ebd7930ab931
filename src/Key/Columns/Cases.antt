-- ===== src/Key/Columns/Cases.antt =====
-- Every type that a key column of src/key.rs can have.
use kudu_rs.Base.{
  Bool, List, Option, Outcome, [], ap, arith, drop, err, false, get_elem?, if◌then◌else◌, none, ok,
  ok-injective, panic, refl, serialization, some, sym, true, ℕ, ◌%◌, ◌++◌, ◌+◌, ◌/◌, ◌<◌, ◌>>=◌,
  ◌^◌, ◌∙◌, ◌∷◌, ◌≡◌,
}
use kudu_rs.BitSet.Laws.{holds}
use kudu_rs.ByteOrder.{BigEndian, LittleEndian, read_be, to_be}
use kudu_rs.Key.Columns.{decode_typed, encode_typed}
use kudu_rs.Key.Columns.Steps.{
  HasKey, KeyValue, Step, check_read-ok, number_key, text_key, value_code,
}
use kudu_rs.Key.Columns.Typed.{number-Step, text-Step}
use kudu_rs.Key.Ints.{decode_int, encode_int, flip_sign}
use kudu_rs.Key.Ints.Signed.{flip_sign-Flipped}
use kudu_rs.Row.{Row, VecMap, get_cell, get_value}
use kudu_rs.Row.Columns.{IsRow, cell_of, get_cell-cell, null_bit}
use kudu_rs.Schema.{Column}
use kudu_rs.Schema.Layout.{take-suc-width}
use kudu_rs.Types.{
  DataType, binary, bool, double, eq_data_type, float, int16, int32, int64, int8, string, timestamp,
  variant,
}
use kudu_rs.Value.{bytes_value, first, i16_value, i32_value, i64_value, i8_value, str_value}
use kudu_rs.Value.Lawful.{
  bytes_value-IsLawful, i16_value-IsLawful, i32_value-IsLawful, i64_value-IsLawful,
  i8_value-IsLawful, str_value-IsLawful,
}

module _ (big_endian : BigEndian) where
  -- A byte is an integer of one byte.
  encode_int-byte :
      (x : ℕ) (buf : List ℕ)
      → x < 256 ^ 1
      → buf ++ flip_sign 1 x ∷ [] ≡ encode_int big_endian 1 x buf
  unfolding encode_int to_be
  encode_int-byte x buf h =
      let small : flip_sign 1 x < 256 = (flip_sign-Flipped 0 x h).range in
      let low : flip_sign 1 x / 256 ^ 0 % 256 ≡ flip_sign 1 x = omega (arith, small) in
      ap (λ (b : ℕ). buf ++ b ∷ []) (sym low)
      ∙ ap (◌++◌ buf) (sym (big_endian.writes 1 (flip_sign 1 x)))

  -- Reading one back.
  decode_int-byte :
      (key rest : List ℕ) (x : ℕ)
      → decode_int big_endian 1 key ≡ ok (rest, x)
      → (b : ℕ) × (first key ≡ ok b) × (flip_sign 1 b ≡ x) × (drop 1 key ≡ rest)
  unfolding decode_int first read_be
  decode_int-byte key rest x h = of_key key (sym (read_by_be key) ∙ h)
    where
      with_read : List ℕ → Outcome ℕ → Outcome (List ℕ × ℕ)
      with_read key m = m >>= λ y. ok (drop 1 key, flip_sign 1 y)

      read_by_be : (key : List ℕ) → decode_int big_endian 1 key ≡ with_read key (read_be 1 0 key)
      read_by_be key = ap (with_read key) (big_endian.reads 1 key)

      of_key :
          (key : List ℕ)
          → with_read key (read_be 1 0 key) ≡ ok (rest, x)
          → (b : ℕ) × (first key ≡ ok b) × (flip_sign 1 b ≡ x) × (drop 1 key ≡ rest)
      of_key [] e = cc
      of_key (b ∷ key) e =
          let same = ok-injective (key, flip_sign 1 (0 + b)) (rest, x) e in
          let plain : 0 + b ≡ b = omega arith in
          (
            b,
            refl,
            ap (flip_sign 1) (sym plain) ∙ ap (λ (p : List ℕ × ℕ). p.1) same,
            ap (λ (p : List ℕ × ℕ). p.0) same,
          )

-- A string that is read is UTF-8, and is read as bytes.
module _ (is_utf8 : List ℕ → Bool) where
  str_bytes :
      (is_set null : Bool) (o : Option (List ℕ)) (v : List ℕ)
      → cell_of (str_value is_utf8) is_set null (elim o [
        | none ↦ panic
        | some bytes ↦ if is_utf8 bytes then ok bytes else err serialization
      ])
        ≡ ok v
      → (cell_of bytes_value is_set null (elim o [ none ↦ panic | some bytes ↦ ok bytes ]) ≡ ok v)
        × (is_utf8 v ≡ true)
  unfolding str_value bytes_value
  str_bytes false null o v h = cc
  str_bytes true true o v h = cc
  str_bytes true false none v h = cc
  str_bytes true false (some bytes) v h = checked (is_utf8 bytes) refl h
    where
      checked :
          (b : Bool)
          → is_utf8 bytes ≡ b
          → (if b then ok bytes else err serialization) ≡ ok v
          → (ok bytes ≡ ok v) × (is_utf8 v ≡ true)
      checked true e h = (h, ap is_utf8 (sym (ok-injective bytes v h)) ∙ e)
      checked false e h = cc

module _ {M : Type 0} (vec_map : VecMap M) (big_endian : BigEndian) (little_endian : LittleEndian)
    (is_utf8 : List ℕ → Bool) (cs : List Column) (idx : ℕ) (c : Column)
    (at_index : get_elem? cs idx ≡ some c) where
  -- A string cell that is read as a string is read as bytes.
  read_bytes :
      (r : Row M) (v : List ℕ)
      → IsRow cs r
      → c.data_type ≡ string
      → get_cell vec_map (str_value is_utf8) r idx ≡ ok v
      → (get_cell vec_map bytes_value r idx ≡ ok v) × (is_utf8 v ≡ true)
  unfolding str_value bytes_value eq_data_type variant get_value
  read_bytes r v row of_type h =
      let inside = (take-suc-width cs idx c at_index).1 in
      let read =
        str_bytes is_utf8 (holds r.set_columns idx) (null_bit r idx)
          (vec_map.find r.row_indirect_data idx) v
          (sym (
              get_cell-cell vec_map (str_value is_utf8) cs r idx row inside
              ∙ rw
                  (check_read-ok vec_map big_endian little_endian is_utf8 cs idx c at_index
                    (str_value is_utf8) r row (rw of_type refl) refl)
                  refl)
            ∙ h) in
      (
        get_cell-cell vec_map bytes_value cs r idx row inside
            ∙ rw
                (check_read-ok vec_map big_endian little_endian is_utf8 cs idx c at_index
                  bytes_value r row (rw of_type refl) refl)
                read.0,
        read.1,
      )

  -- A column that has a key's value is encoded, and decoded into any row.
  pub column-Step :
      (t : DataType)
      → c.data_type ≡ t
      → (r : Row M) (is_last : Bool) (buf : List ℕ) (v : KeyValue) → IsRow cs r
      → HasKey vec_map big_endian little_endian is_utf8 t r idx v
      → Step vec_map big_endian little_endian is_utf8 cs idx c at_index r is_last buf v
  unfolding HasKey value_code encode_typed decode_typed i8_value i16_value i32_value i64_value
      bytes_value str_value eq_data_type variant
  column-Step int8 of_type r is_last buf (number_key x) row h =
      number-Step vec_map big_endian little_endian is_utf8 cs idx c at_index int8 of_type 1 x
        i8_value (i8_value-IsLawful x) refl refl refl (omega arith, h.1) r is_last buf row refl
        (rw h.0 (ap ok (encode_int-byte big_endian x buf h.1)))
        (λ into key rest d.
          let (b, first_is, back, rest_is) = decode_int-byte big_endian key rest x d in
          rw (first_is, back, rest_is) refl)
        (λ r' g. (g, h.1))
  column-Step int16 of_type r is_last buf (number_key x) row h =
      number-Step vec_map big_endian little_endian is_utf8 cs idx c at_index int16 of_type 2 x
        (i16_value little_endian) (i16_value-IsLawful little_endian x h.1) refl refl refl
        (omega arith, h.1) r is_last buf row refl (rw h.0 refl) (λ into key rest d. rw d refl)
        (λ r' g. (g, h.1))
  column-Step int32 of_type r is_last buf (number_key x) row h =
      number-Step vec_map big_endian little_endian is_utf8 cs idx c at_index int32 of_type 4 x
        (i32_value little_endian) (i32_value-IsLawful little_endian x h.1) refl refl refl
        (omega arith, h.1) r is_last buf row refl (rw h.0 refl) (λ into key rest d. rw d refl)
        (λ r' g. (g, h.1))
  column-Step int64 of_type r is_last buf (number_key x) row h =
      number-Step vec_map big_endian little_endian is_utf8 cs idx c at_index int64 of_type 8 x
        (i64_value little_endian) (i64_value-IsLawful little_endian x h.1) refl refl refl
        (omega arith, h.1) r is_last buf row refl (rw h.0 refl) (λ into key rest d. rw d refl)
        (λ r' g. (g, h.1))
  column-Step timestamp of_type r is_last buf (number_key x) row h =
      number-Step vec_map big_endian little_endian is_utf8 cs idx c at_index timestamp of_type 8 x
        (i64_value little_endian) (i64_value-IsLawful little_endian x h.1) refl refl refl
        (omega arith, h.1) r is_last buf row refl (rw h.0 refl) (λ into key rest d. rw d refl)
        (λ r' g. (g, h.1))
  column-Step binary of_type r is_last buf (text_key v) row h =
      text-Step vec_map big_endian little_endian is_utf8 cs idx c at_index binary of_type v
        bytes_value (bytes_value-IsLawful v) refl refl refl r is_last buf row refl (rw h refl)
        (λ into key rest d. rw d refl) (λ r' g. g)
  column-Step string of_type r is_last buf (text_key v) row h =
      let (bytes, valid) = read_bytes r v row of_type h in
      text-Step vec_map big_endian little_endian is_utf8 cs idx c at_index string of_type v
        (str_value is_utf8) (str_value-IsLawful is_utf8 v valid) refl refl refl r is_last buf row
        refl (rw bytes refl) (λ into key rest d. rw (d, valid) refl) (λ r' g. g)
  column-Step int8 of_type r is_last buf (text_key v) row h = absurd h
  column-Step int16 of_type r is_last buf (text_key v) row h = absurd h
  column-Step int32 of_type r is_last buf (text_key v) row h = absurd h
  column-Step int64 of_type r is_last buf (text_key v) row h = absurd h
  column-Step timestamp of_type r is_last buf (text_key v) row h = absurd h
  column-Step binary of_type r is_last buf (number_key x) row h = absurd h
  column-Step string of_type r is_last buf (number_key x) row h = absurd h
  column-Step bool of_type r is_last buf v row h = absurd h
  column-Step float of_type r is_last buf v row h = absurd h
  column-Step double of_type r is_last buf v row h = absurd h
