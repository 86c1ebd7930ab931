-- ===== src/Value/Lawful.antt =====
-- Which values of src/value.rs a row can keep: what is stored is read back.
use kudu_rs.Base.{
  Bool, Bool-cases, List, Option, [], ap, arith, drop, false, if◌then◌else◌, inl, inr, length,
  length-append, length-drop, le→leb, none, ok, refl, some, subst, suc, true, zero, ℕ, ◌++◌, ◌/◌,
  ◌<◌, ◌==◌, ◌^◌, ◌||◌, ◌∙◌, ◌∷◌, ◌≡◌,
}
use kudu_rs.ByteOrder.{LittleEndian, read_le, to_le}
use kudu_rs.Time.{SystemTime, time_to_us}
use kudu_rs.Time.RoundTrip.{IsStored, time_to_us-lt, us_to_time-time_to_us}
use kudu_rs.Types.{
  DataType, binary, bool, double, eq_data_type, float, int16, int32, int64, int8, size, string,
  timestamp,
}
use kudu_rs.Types.Conversions.{eq_of_eq_data_type}
use kudu_rs.Value.{
  Value, bool_value, bytes_value, f32_value, f64_value, first, i16_value, i32_value, i64_value,
  i8_value, number_value, option_value, set_first, str_value, system_time_value, write_slice,
}
use native.Mathlib.Nat.{pow-suc}

-- A null is made of nothing; another value is stored in bytes of its own or in as many bytes of the
-- row as its type has, and read back from them.
pub record IsLawful {V : Type 0} (T : Value V) (v : V) : Type 0 where
  pub null_back : T.is_null v ≡ true → (T.nullable ≡ true) × (T.from_null ≡ ok v)
  pub indirect_back :
      T.is_null v ≡ false
      → T.var_len ≡ true
      → (bytes : List ℕ) × (T.indirect_data v ≡ ok bytes) × (T.from_data bytes ≡ ok v)
  pub direct_back :
      T.is_null v ≡ false
      → T.var_len ≡ false
      → (dest : List ℕ) → length dest ≡ T.value_size
      → (bytes : List ℕ) × (T.copy_data v dest ≡ ok bytes)
        × (length bytes ≡ T.value_size)
        × (T.from_data bytes ≡ ok v)
  -- The values of a type that can be written to a column are as long as the column.
  pub size_of_column : (t : DataType) → T.can_write_to t ≡ true → size t ≡ T.value_size

pub length-to_le : (n x : ℕ) → length (to_le n x) ≡ n
unfolding to_le
length-to_le zero x = refl
length-to_le (suc n) x = ap suc (length-to_le n (x / 256))

read_le-to_le : (n x : ℕ) (rest : List ℕ) → x < 256 ^ n → read_le n (to_le n x ++ rest) ≡ ok x
unfolding read_le to_le
read_le-to_le zero x rest h = ap ok (omega arith)
read_le-to_le (suc n) x rest h =
    rw (read_le-to_le n (x / 256) rest (omega (arith, pow-suc 256 n))) (ap ok (omega arith))

module _ (little_endian : LittleEndian) (accepts : DataType → Bool) (t : DataType) (n x : ℕ) where
  number_value-IsLawful :
      ((t : DataType) → accepts t ≡ true → size t ≡ n)
      → x < 256 ^ n
      → IsLawful (number_value little_endian accepts t n) x
  unfolding number_value write_slice
  number_value-IsLawful sizes h = record {
    null_back = λ null. cc;
    indirect_back = λ null direct. cc;
    direct_back = λ null direct dest long. (
      little_endian.write_le n x ++ drop n dest,
      rw (le→leb n (length dest) (omega (arith, long))) refl,
      rw (little_endian.writes_le n x) (
          omega (
            arith,
            length-append (to_le n x) (drop n dest),
            length-to_le n x,
            length-drop n dest,
            long,
          )),
      rw (little_endian.writes_le n x, little_endian.reads_le n (to_le n x ++ drop n dest))
          (read_le-to_le n x (drop n dest) h),
    );
    size_of_column = sizes;
  }

-- The size of a column of a type, or of one of two types of the same size.
pub size_of : (a : DataType) (t : DataType) → eq_data_type t a ≡ true → size t ≡ size a
size_of a t h = ap size (eq_of_eq_data_type t a h)

pub size_of_either :
    (a b : DataType)
    → size b ≡ size a
    → (t : DataType) → (eq_data_type t a || eq_data_type t b) ≡ true
    → size t ≡ size a
size_of_either a b same_size t h = elim (Bool-cases (eq_data_type t a)) [
  | inl e ↦ size_of a t e
  | inr e ↦ size_of b t (subst (λ (c : Bool). (c || eq_data_type t b) ≡ true) e h) ∙ same_size
]

module _ (little_endian : LittleEndian) (x : ℕ) where
  pub i16_value-IsLawful : x < 256 ^ 2 → IsLawful (i16_value little_endian) x
  unfolding i16_value size
  i16_value-IsLawful = number_value-IsLawful little_endian _ int16 2 x (size_of int16)

  pub i32_value-IsLawful : x < 256 ^ 4 → IsLawful (i32_value little_endian) x
  unfolding i32_value size
  i32_value-IsLawful = number_value-IsLawful little_endian _ int32 4 x (size_of int32)

  pub i64_value-IsLawful : x < 256 ^ 8 → IsLawful (i64_value little_endian) x
  unfolding i64_value size
  i64_value-IsLawful =
      number_value-IsLawful little_endian _ int64 8 x (size_of_either int64 timestamp refl)

  pub f32_value-IsLawful : x < 256 ^ 4 → IsLawful (f32_value little_endian) x
  unfolding f32_value size
  f32_value-IsLawful = number_value-IsLawful little_endian _ float 4 x (size_of float)

  pub f64_value-IsLawful : x < 256 ^ 8 → IsLawful (f64_value little_endian) x
  unfolding f64_value size
  f64_value-IsLawful = number_value-IsLawful little_endian _ double 8 x (size_of double)

-- A time of whole microseconds is kept.
pub system_time_value-IsLawful :
    (little_endian : LittleEndian) (t : SystemTime)
    → IsStored t
    → IsLawful (system_time_value little_endian) t
unfolding system_time_value i64_value number_value size
system_time_value-IsLawful little_endian t stored = record {
  null_back = λ null. cc;
  indirect_back = λ null direct. cc;
  direct_back = λ null direct dest long.
      let (bytes, copied, length_ok, back) =
        (i64_value-IsLawful little_endian (time_to_us t) (time_to_us-lt t)).direct_back refl refl
          dest long in
      (bytes, copied, length_ok, rw back (ap ok (us_to_time-time_to_us t stored)));
  size_of_column = size_of_either timestamp int64 refl;
}

one_byte : (dest : List ℕ) → length dest ≡ 1 → (b : ℕ) × (dest ≡ b ∷ [])
one_byte [] h = absurd (omega arith)
one_byte (b ∷ []) h = (b, refl)
one_byte (b ∷ c ∷ dest) h = absurd (omega arith)

pub i8_value-IsLawful : (x : ℕ) → IsLawful i8_value x
unfolding i8_value set_first first size
i8_value-IsLawful x = record {
  null_back = λ null. cc;
  indirect_back = λ null direct. cc;
  direct_back = λ null direct dest long.
      let (b, one) = one_byte dest long in (x ∷ [], rw one refl, refl, refl);
  size_of_column = size_of int8;
}

pub bool_value-IsLawful : (v : Bool) → IsLawful bool_value v
unfolding bool_value set_first first size
bool_value-IsLawful v = record {
  null_back = λ null. cc;
  indirect_back = λ null direct. cc;
  direct_back = λ null direct dest long.
      let (b, one) = one_byte dest long in ((if v then 1 else 0) ∷ [], rw one refl, refl, back v);
  size_of_column = size_of bool;
}
  where
    back : (v : Bool) → ok (if (if v then 1 else 0) == 0 then false else true) ≡ ok v
    back true = refl
    back false = refl

pub bytes_value-IsLawful : (v : List ℕ) → IsLawful bytes_value v
unfolding bytes_value size
bytes_value-IsLawful v = record {
  null_back = λ null. cc;
  indirect_back = λ null indirect. (v, refl, refl);
  direct_back = λ null direct. cc;
  size_of_column = size_of binary;
}

-- An optional value is kept if it is null, or if it is lawful and has bytes of its own.
pub option_value-IsLawful :
    {V : Type 0} (T : Value V) (o : Option V)
    → ((v : V) → o ≡ some v → IsLawful T v × (T.var_len ≡ true) × (T.is_null v ≡ false))
    → ((t : DataType) → T.can_write_to t ≡ true → size t ≡ T.value_size)
    → IsLawful (option_value T) o
unfolding option_value
option_value-IsLawful T none kept sizes = record {
  null_back = λ null. (refl, refl);
  indirect_back = λ null. cc;
  direct_back = λ null. cc;
  size_of_column = sizes;
}
option_value-IsLawful T (some v) kept sizes = record {
  null_back = λ null. cc;
  indirect_back = λ null indirect.
      let (lawful, _, present) = kept v refl in
      let (bytes, stored, back) = lawful.indirect_back present indirect in
      (bytes, stored, rw back refl);
  direct_back = λ null direct dest long. absurd (direct_is_not_indirect direct);
  size_of_column = sizes;
}
  where
    direct_is_not_indirect : T.var_len ≡ false → ⊥
    direct_is_not_indirect direct = let (_, indirect, _) = kept v refl in cc

pub str_value-IsLawful :
    (is_utf8 : List ℕ → Bool) (v : List ℕ) → is_utf8 v ≡ true → IsLawful (str_value is_utf8) v
unfolding str_value size
str_value-IsLawful is_utf8 v valid = record {
  null_back = λ null. cc;
  indirect_back = λ null indirect. (v, refl, rw valid refl);
  direct_back = λ null direct. cc;
  size_of_column = size_of_either string binary refl;
}
