-- ===== src/Key/Columns/Typed.antt =====
-- The columns of a key of src/key.rs by their types.
use kudu_rs.Base.{
  Bool, List, [], ap, false, get_elem?, ok, refl, some, subst, sym, true, ℕ, ◌++◌, ◌<◌, ◌>>=◌, ◌^◌,
  ◌∙◌, ◌≡◌, ◌≤◌,
}
use kudu_rs.ByteOrder.{BigEndian, LittleEndian}
use kudu_rs.Key.Binary.{decode_binary, encode_binary}
use kudu_rs.Key.Binary.Escape.{encode_binary-escape}
use kudu_rs.Key.Binary.RoundTrip.{decode-encode_binary}
use kudu_rs.Key.Columns.{decode_typed, encode_typed}
use kudu_rs.Key.Columns.Steps.{
  HasKey, Step, decode_column-typed, encode_column-typed, number_key, put_unchecked, text_key,
  value_code,
}
use kudu_rs.Key.Ints.{decode_int, encode_int}
use kudu_rs.Key.Ints.Signed.{decode_int-encode_int}
use kudu_rs.Row.{Row, VecMap, get_cell, set_unchecked}
use kudu_rs.Row.Columns.{IsRow}
use kudu_rs.Schema.{Column}
use kudu_rs.Types.{DataType}
use kudu_rs.Value.{Value}
use kudu_rs.Value.Lawful.{IsLawful}

module _ {M : Type 0} (vec_map : VecMap M) (big_endian : BigEndian) (little_endian : LittleEndian)
    (is_utf8 : List ℕ → Bool) (cs : List Column) (idx : ℕ) (c : Column)
    (at_index : get_elem? cs idx ≡ some c) where
  -- What is in the buffer before does not matter.
  encode_int-appends :
      (n x : ℕ) (buf : List ℕ) → encode_int big_endian n x buf ≡ buf ++ encode_int big_endian n x []
  unfolding encode_int
  encode_int-appends n x buf = refl

  encode_binary-appends :
      (v buf : List ℕ) (is_last : Bool)
      → encode_binary v is_last buf ≡ buf ++ encode_binary v is_last []
  encode_binary-appends v buf true = unfold encode_binary in refl
  encode_binary-appends v buf false =
      encode_binary-escape v buf ∙ ap (◌++◌ buf) (sym (encode_binary-escape v []))

  -- A column of integers of `n` bytes.
  module _ (t : DataType) (of_type : c.data_type ≡ t) (n x : ℕ) (T : Value ℕ)
      (lawful : IsLawful T x) (writes : T.can_write_to t ≡ true) (reads : T.can_read_from t ≡ true)
      (not_nullable : T.nullable ≡ false) (sized : (1 ≤ n) × (x < 256 ^ n)) where
    pub number-Step :
        (r : Row M) (is_last : Bool) (buf : List ℕ)
        → IsRow cs r
        → (value_code vec_map big_endian little_endian is_utf8 t is_last (number_key x)
            ≡ encode_int big_endian n x [])
        → (encode_typed vec_map big_endian little_endian is_utf8 t r idx is_last buf
            ≡ ok (encode_int big_endian n x buf))
        → ((into : Row M) (key rest : List ℕ)
            → decode_int big_endian n key ≡ ok (rest, x)
            → decode_typed vec_map big_endian little_endian is_utf8 t into idx is_last key
              ≡ (set_unchecked vec_map T into idx x >>= λ r'. ok (r', rest)))
        → ((r' : Row M)
            → get_cell vec_map T r' idx ≡ ok x
            → HasKey vec_map big_endian little_endian is_utf8 t r' idx (number_key x))
        → Step vec_map big_endian little_endian is_utf8 cs idx c at_index r is_last buf
            (number_key x)
    number-Step r is_last buf row codes encodes decodes has =
        let (code, alone, _, back) = decode_int-encode_int big_endian n x [] sized.0 sized.1 in
        (record {
          code = code;
          code_is = rw of_type (sym alone ∙ sym codes);
          encoded =
              encode_column-typed vec_map big_endian little_endian is_utf8 cs idx c at_index t r
                is_last buf row of_type
              ∙ encodes
              ∙ ap ok (encode_int-appends n x buf ∙ ap (◌++◌ buf) alone);
          decoded = λ into rest row_into _.
              let (r', set_ok, row', get_ok, others) =
                put_unchecked vec_map big_endian little_endian is_utf8 cs idx c at_index T x into
                  row_into lawful (rw of_type writes) (rw of_type reads) not_nullable in
              (
                r',
                decode_column-typed vec_map big_endian little_endian is_utf8 cs idx c at_index t
                      into is_last (code ++ rest) row_into of_type
                    ∙ decodes into (code ++ rest) rest (back rest)
                    ∙ rw set_ok refl,
                row',
                subst
                    (λ (u : DataType).
                      HasKey vec_map big_endian little_endian is_utf8 u r' idx (number_key x))
                    (sym of_type) (has r' get_ok),
                others,
              );
        })

  -- A column of bytes.
  module _ (t : DataType) (of_type : c.data_type ≡ t) (v : List ℕ) (T : Value (List ℕ))
      (lawful : IsLawful T v) (writes : T.can_write_to t ≡ true) (reads : T.can_read_from t ≡ true)
      (not_nullable : T.nullable ≡ false) where
    pub text-Step :
        (r : Row M) (is_last : Bool) (buf : List ℕ)
        → IsRow cs r
        → (value_code vec_map big_endian little_endian is_utf8 t is_last (text_key v)
            ≡ encode_binary v is_last [])
        → (encode_typed vec_map big_endian little_endian is_utf8 t r idx is_last buf
            ≡ ok (encode_binary v is_last buf))
        → ((into : Row M) (key rest : List ℕ)
            → decode_binary key is_last ≡ ok (rest, v)
            → decode_typed vec_map big_endian little_endian is_utf8 t into idx is_last key
              ≡ (set_unchecked vec_map T into idx v >>= λ r'. ok (r', rest)))
        → ((r' : Row M)
            → get_cell vec_map T r' idx ≡ ok v
            → HasKey vec_map big_endian little_endian is_utf8 t r' idx (text_key v))
        → Step vec_map big_endian little_endian is_utf8 cs idx c at_index r is_last buf (text_key v)
    text-Step r is_last buf row codes encodes decodes has =
        let (code, alone, back) = decode-encode_binary v [] is_last in
        (record {
          code = code;
          code_is = rw of_type (sym alone ∙ sym codes);
          encoded =
              encode_column-typed vec_map big_endian little_endian is_utf8 cs idx c at_index t r
                is_last buf row of_type
              ∙ encodes
              ∙ ap ok (encode_binary-appends v buf is_last ∙ ap (◌++◌ buf) alone);
          decoded = λ into rest row_into ends.
              let (r', set_ok, row', get_ok, others) =
                put_unchecked vec_map big_endian little_endian is_utf8 cs idx c at_index T v into
                  row_into lawful (rw of_type writes) (rw of_type reads) not_nullable in
              (
                r',
                decode_column-typed vec_map big_endian little_endian is_utf8 cs idx c at_index t
                      into is_last (code ++ rest) row_into of_type
                    ∙ decodes into (code ++ rest) rest (back rest ends)
                    ∙ rw set_ok refl,
                row',
                subst
                    (λ (u : DataType).
                      HasKey vec_map big_endian little_endian is_utf8 u r' idx (text_key v))
                    (sym of_type) (has r' get_ok),
                others,
              );
        })
