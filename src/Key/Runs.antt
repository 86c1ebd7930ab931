-- ===== src/Key/Runs.antt =====
-- Runs of src/key.rs, and the theorems at concrete inputs.
use kudu_rs.Base.{
  ==_refl, Bool, List, Option, [], arith, false, if◌then◌else◌, ne→==_false, none, ok, refl,
  replicate, some, subst, suc, true, zero, ℕ, ◌++◌, ◌==◌, ◌∷◌, ◌≡◌,
}
use kudu_rs.BitSet.{get, mask}
use kudu_rs.ByteOrder.{BigEndian, LittleEndian, read_be, read_le, to_be, to_le}
use kudu_rs.Bytes.{cmp_bytes, then_cmp}
use kudu_rs.Key.Binary.{decode_binary, encode_binary}
use kudu_rs.Key.Binary.RoundTrip.{
  Reads, cmp_bytes-encode_binary, decode-encode_binary, decode_binary-Reads,
}
use kudu_rs.Key.Columns.{decode_primary_key, encode_columns, encode_primary_key, indexes}
use kudu_rs.Key.Columns.Compare.{cmp_bytes-encode_primary_key}
use kudu_rs.Key.Columns.Keys.{HasKeys}
use kudu_rs.Key.Columns.Order.{cmp_values}
use kudu_rs.Key.Columns.PrimaryKey.{decode-encode_primary_key}
use kudu_rs.Key.Columns.Steps.{HasKey, KeyValue, number_key, text_key}
use kudu_rs.Key.Ints.{decode_int, encode_int}
use kudu_rs.Key.Ints.Signed.{cmp_bytes-encode_int, cmp_signed}
use kudu_rs.Row.{Row, VecMap, get_cell}
use kudu_rs.Row.Columns.{IsRow}
use kudu_rs.Schema.{Column, new}
use kudu_rs.Schema.Layout.{new-LaidOut, width}
use kudu_rs.Types.{auto, default_compression, eq_data_type, int32, size, string, variant}
use kudu_rs.Value.{bytes_value, i32_value, str_value}
use mathlib.Core.Option.{some-injective}

codecs : Unit {0}
unfolding encode_binary decode_binary encode_int decode_int to_be read_be
codecs = tt

-- "a\0b", then the start of another column.
abbrev pub zero_inside : List ℕ
zero_inside = 97 ∷ 0 ∷ 98 ∷ []

encode_zero_inside : encode_binary zero_inside false [] ≡ 97 ∷ 0 ∷ 1 ∷ 98 ∷ 0 ∷ 0 ∷ []
unfolding codecs
encode_zero_inside = refl

decode_zero_inside :
    decode_binary (97 ∷ 0 ∷ 1 ∷ 98 ∷ 0 ∷ 0 ∷ 5 ∷ []) false ≡ ok (5 ∷ [], zero_inside)
unfolding codecs
decode_zero_inside = refl

-- The byte order as its documentation has it.
abbrev pub bytes_in_order : BigEndian
bytes_in_order = record {
  write = to_be;
  read = λ n. read_be n 0;
  writes = λ n x. refl;
  reads = λ n bytes. refl;
}

-- -2 as an i16
encode_minus_two : encode_int bytes_in_order 2 0xfffe [] ≡ 0x7f ∷ 0xfe ∷ []
unfolding codecs
encode_minus_two = refl

decode-encode_binary_example :
    (e : List ℕ) × (encode_binary zero_inside false (9 ∷ []) ≡ 9 ∷ e)
    × ((rest : List ℕ) → Unit {0} → decode_binary (e ++ rest) false ≡ ok (rest, zero_inside))
decode-encode_binary_example = decode-encode_binary zero_inside (9 ∷ []) false

decode_binary-Reads_example : Reads (97 ∷ 0 ∷ 7 ∷ []) (decode_binary (97 ∷ 0 ∷ 7 ∷ []) false)
decode_binary-Reads_example = decode_binary-Reads (97 ∷ 0 ∷ 7 ∷ [])

cmp_bytes-encode_binary_example :
    cmp_bytes
      (encode_binary zero_inside false [] ++ 1 ∷ [])
      (encode_binary (97 ∷ []) false [] ++ 2 ∷ [])
    ≡ then_cmp (cmp_bytes zero_inside (97 ∷ [])) (cmp_bytes (1 ∷ []) (2 ∷ []))
cmp_bytes-encode_binary_example = cmp_bytes-encode_binary zero_inside (97 ∷ []) (1 ∷ []) (2 ∷ [])

cmp_bytes-encode_int_example :
    cmp_bytes (encode_int bytes_in_order 2 0xfffe [] ++ []) (encode_int bytes_in_order 2 3 [] ++ [])
    ≡ then_cmp (cmp_signed 2 0xfffe 3) (cmp_bytes [] [])
cmp_bytes-encode_int_example =
    cmp_bytes-encode_int bytes_in_order 2 0xfffe 3 [] [] (omega arith) (omega arith) (omega arith)

abbrev pub key_map : VecMap (ℕ → Option (List ℕ))
key_map = record {
  empty = λ i. none;
  put = λ m i v j. if i == j then some v else m j;
  delete = λ m i j. if i == j then none else m j;
  find = λ m i. m i;
  find-empty = λ i. refl;
  find-put_self = λ m i v. rw (==_refl i) refl;
  find-put_ne = λ m i j v ne. rw (ne→==_false i j ne) refl;
  find-delete_ne = λ m i j ne. rw (ne→==_false i j ne) refl;
}

abbrev pub key_low_first : LittleEndian
key_low_first = record {
  write_le = to_le;
  read_from_le = read_le;
  writes_le = λ n x. refl;
  reads_le = λ n bytes. refl;
}

-- A string and a 32-bit integer, which are the key.
abbrev pub key_columns : List Column
key_columns =
    record {
      name = 97 ∷ [];
      data_type = string;
      is_nullable = false;
      compression = default_compression;
      encoding = auto;
      block_size = 0;
    }
    ∷ record {
      name = 98 ∷ [];
      data_type = int32;
      is_nullable = false;
      compression = default_compression;
      encoding = auto;
      block_size = 0;
    }
    ∷ []

abbrev pub any_utf8 : List ℕ → Bool
any_utf8 v = true

-- "a\0b" and 99
abbrev pub key_row : Row (ℕ → Option (List ℕ))
key_row = record {
  row_data = replicate 16 0 ++ 99 ∷ 0 ∷ 0 ∷ 0 ∷ [];
  row_indirect_data = λ i. if i == 0 then some zero_inside else none;
  set_columns = 3 ∷ [];
  null_columns = [];
  schema = new key_columns 2;
}

abbrev pub key_values : ℕ → KeyValue
key_values zero = text_key zero_inside
key_values (suc i) = number_key 99

encode_key_row :
    encode_primary_key key_map bytes_in_order key_low_first any_utf8 key_row
    ≡ ok (97 ∷ 0 ∷ 1 ∷ 98 ∷ 0 ∷ 0 ∷ 128 ∷ 0 ∷ 0 ∷ 99 ∷ [])
unfolding codecs encode_primary_key encode_columns indexes size variant i32_value bytes_value
    get_cell mask get to_le read_le eq_data_type new
encode_key_row = refl

pub key_row-IsRow : IsRow key_columns key_row
unfolding new size
key_row-IsRow = record {
  laid_out = new-LaidOut key_columns 2 (unfold width size in omega arith);
  data_room = refl;
  set_room = omega arith;
  null_room = λ e. cc;
}

pub key_row-HasKeys :
    HasKeys key_map bytes_in_order key_low_first any_utf8 key_columns key_values 2 key_row
unfolding size variant i32_value bytes_value get_cell mask get to_le read_le eq_data_type new HasKey
    str_value
key_row-HasKeys zero c below at =
    subst
      (λ (x : Column).
        HasKey key_map bytes_in_order key_low_first any_utf8 x.data_type key_row 0
          (text_key zero_inside))
      (some-injective _ c at) refl
key_row-HasKeys (suc zero) c below at =
    subst
      (λ (x : Column).
        HasKey key_map bytes_in_order key_low_first any_utf8 x.data_type key_row 1 (number_key 99))
      (some-injective _ c at) (refl, omega arith)
key_row-HasKeys (suc (suc j)) c below at = absurd (omega arith)

decode-encode_primary_key_example :
    (key : List ℕ) × (encode_primary_key key_map bytes_in_order key_low_first any_utf8 key_row
      ≡ ok key)
    × (r' : Row (ℕ → Option (List ℕ))) × (decode_primary_key key_map bytes_in_order key_low_first
          any_utf8 key_row.schema key
        ≡ ok r')
    × IsRow key_columns r'
    × HasKeys key_map bytes_in_order key_low_first any_utf8 key_columns key_values 2 r'
unfolding new
decode-encode_primary_key_example =
    decode-encode_primary_key key_map bytes_in_order key_low_first any_utf8 key_columns key_values
      key_row (omega arith) key_row-IsRow key_row-HasKeys

abbrev pub other_row : Row (ℕ → Option (List ℕ))
other_row = record key_row { row_data = replicate 16 0 ++ 100 ∷ 0 ∷ 0 ∷ 0 ∷ [] }

abbrev pub other_values : ℕ → KeyValue
other_values zero = text_key zero_inside
other_values (suc i) = number_key 100

pub other_row-IsRow : IsRow key_columns other_row
unfolding new size
other_row-IsRow = record {
  laid_out = new-LaidOut key_columns 2 (unfold width size in omega arith);
  data_room = refl;
  set_room = omega arith;
  null_room = λ e. cc;
}

pub other_row-HasKeys :
    HasKeys key_map bytes_in_order key_low_first any_utf8 key_columns other_values 2 other_row
unfolding size variant i32_value bytes_value get_cell mask get to_le read_le eq_data_type new HasKey
    str_value
other_row-HasKeys zero c below at =
    subst
      (λ (x : Column).
        HasKey key_map bytes_in_order key_low_first any_utf8 x.data_type other_row 0
          (text_key zero_inside))
      (some-injective _ c at) refl
other_row-HasKeys (suc zero) c below at =
    subst
      (λ (x : Column).
        HasKey key_map bytes_in_order key_low_first any_utf8 x.data_type other_row 1
          (number_key 100))
      (some-injective _ c at) (refl, omega arith)
other_row-HasKeys (suc (suc j)) c below at = absurd (omega arith)

cmp_bytes-encode_primary_key_example :
    (x y : List ℕ) × (encode_primary_key key_map bytes_in_order key_low_first any_utf8 key_row
      ≡ ok x)
    × (encode_primary_key key_map bytes_in_order key_low_first any_utf8 other_row ≡ ok y)
    × (cmp_bytes x y ≡ cmp_values 0 key_columns key_values other_values)
unfolding new
cmp_bytes-encode_primary_key_example =
    cmp_bytes-encode_primary_key key_map bytes_in_order key_low_first any_utf8 key_columns 2
      key_values other_values key_row other_row (omega arith) (refl, refl)
      (key_row-IsRow, other_row-IsRow) key_row-HasKeys other_row-HasKeys
