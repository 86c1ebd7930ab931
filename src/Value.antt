-- ===== src/Value.antt =====
-- src/value.rs: the trait `Value` as a record of its functions, and its implementations. An integer
-- and a float is the number that its bits are. `unreachable!` is a panic.
pub mod Lawful
use kudu_rs.Base.{
  Bool, List, Option, Outcome, [], drop, err, false, if◌then◌else◌, leb, length, none, ok, panic,
  serialization, some, true, ℕ, ◌++◌, ◌==◌, ◌>>=◌, ◌||◌, ◌∷◌,
}
use kudu_rs.ByteOrder.{LittleEndian}
use kudu_rs.Time.{SystemTime, time_to_us, us_to_time}
use kudu_rs.Types.{
  DataType, binary, bool, double, eq_data_type, float, int16, int32, int64, int8, string, timestamp,
}

pub record Value (V : Type 0) : Type 0 where
  pub can_read_from : DataType → Bool
  pub can_write_to : DataType → Bool
  pub value_type : DataType
  pub value_size : ℕ
  pub var_len : Bool
  pub nullable : Bool
  pub is_null : V → Bool
  pub copy_data : V → List ℕ → Outcome (List ℕ)
  pub indirect_data : V → Outcome (List ℕ)
  pub from_data : List ℕ → Outcome V
  pub from_null : Outcome V

-- `dest[0] = b` and `data[0]`, which panic on an empty slice.
unfoldable pub set_first : ℕ → List ℕ → Outcome (List ℕ)
set_first b [] = panic
set_first b (x ∷ xs) = ok (b ∷ xs)

unfoldable pub first : List ℕ → Outcome ℕ
first [] = panic
first (x ∷ xs) = ok x

unfoldable pub bool_value : Value Bool
unfolding eq_data_type set_first first
bool_value = record {
  can_read_from = λ t. eq_data_type t bool;
  can_write_to = λ t. eq_data_type t bool;
  value_type = bool;
  value_size = 1;
  var_len = false;
  nullable = false;
  is_null = λ v. false;
  copy_data = λ v dest. set_first (if v then 1 else 0) dest;
  indirect_data = λ v. panic;
  from_data = λ bytes. first bytes >>= λ b. ok (if b == 0 then false else true);
  from_null = panic;
}

unfoldable pub i8_value : Value ℕ
unfolding eq_data_type set_first first
i8_value = record {
  can_read_from = λ t. eq_data_type t int8;
  can_write_to = λ t. eq_data_type t int8;
  value_type = int8;
  value_size = 1;
  var_len = false;
  nullable = false;
  is_null = λ v. false;
  copy_data = λ v dest. set_first v dest;
  indirect_data = λ v. panic;
  from_data = λ bytes. first bytes;
  from_null = panic;
}

-- The other numbers, of `n` bytes, which can be read from and written to the types that `accepts`
-- tells. `LittleEndian::write_*` writes the first bytes of its slice, and panics if there are fewer.
module _ (little_endian : LittleEndian) where
  unfoldable pub write_slice : ℕ → ℕ → List ℕ → Outcome (List ℕ)
  write_slice n x dest =
      if leb n (length dest) then ok (little_endian.write_le n x ++ drop n dest) else panic

  unfoldable pub number_value : (DataType → Bool) → DataType → ℕ → Value ℕ
  unfolding write_slice
  number_value accepts t n = record {
    can_read_from = accepts;
    can_write_to = accepts;
    value_type = t;
    value_size = n;
    var_len = false;
    nullable = false;
    is_null = λ v. false;
    copy_data = λ v dest. write_slice n v dest;
    indirect_data = λ v. panic;
    from_data = λ bytes. little_endian.read_from_le n bytes;
    from_null = panic;
  }

  unfoldable pub i16_value : Value ℕ
  unfolding number_value eq_data_type
  i16_value = number_value (λ t. eq_data_type t int16) int16 2

  unfoldable pub i32_value : Value ℕ
  unfolding number_value eq_data_type
  i32_value = number_value (λ t. eq_data_type t int32) int32 4

  unfoldable pub i64_value : Value ℕ
  unfolding number_value eq_data_type
  i64_value = number_value (λ t. eq_data_type t int64 || eq_data_type t timestamp) int64 8

  unfoldable pub f32_value : Value ℕ
  unfolding number_value eq_data_type
  f32_value = number_value (λ t. eq_data_type t float) float 4

  unfoldable pub f64_value : Value ℕ
  unfolding number_value eq_data_type
  f64_value = number_value (λ t. eq_data_type t double) double 8

  -- `SystemTime`, in the microseconds of an `i64`.
  unfoldable pub system_time_value : Value SystemTime
  unfolding write_slice eq_data_type
  system_time_value = record {
    can_read_from = λ t. eq_data_type t timestamp || eq_data_type t int64;
    can_write_to = λ t. eq_data_type t timestamp || eq_data_type t int64;
    value_type = timestamp;
    value_size = 8;
    var_len = false;
    nullable = false;
    is_null = λ v. false;
    copy_data = λ v dest. write_slice 8 (time_to_us v) dest;
    indirect_data = λ v. panic;
    from_data = λ bytes. little_endian.read_from_le 8 bytes >>= λ us. ok (us_to_time us);
    from_null = panic;
  }

-- `&[u8]` and `Vec<u8>`
unfoldable pub bytes_value : Value (List ℕ)
unfolding eq_data_type
bytes_value = record {
  can_read_from = λ t. eq_data_type t binary || eq_data_type t string;
  can_write_to = λ t. eq_data_type t binary;
  value_type = binary;
  value_size = 16;
  var_len = true;
  nullable = false;
  is_null = λ v. false;
  copy_data = λ v dest. panic;
  indirect_data = λ v. ok v;
  from_data = λ bytes. ok bytes;
  from_null = panic;
}

-- `&str` and `String`, as bytes; `is_utf8` is the test of `str::from_utf8`.
unfoldable pub str_value : (List ℕ → Bool) → Value (List ℕ)
unfolding eq_data_type
str_value is_utf8 = record {
  can_read_from = λ t. eq_data_type t string;
  can_write_to = λ t. eq_data_type t string || eq_data_type t binary;
  value_type = string;
  value_size = 16;
  var_len = true;
  nullable = false;
  is_null = λ v. false;
  copy_data = λ v dest. panic;
  indirect_data = λ v. ok v;
  from_data = λ bytes. if is_utf8 bytes then ok bytes else err serialization;
  from_null = panic;
}

abbrev pub is_none : {A : Type 0} → Option A → Bool
is_none none = true
is_none (some a) = false

-- `Option<V>`, which leaves `copy_data` to the trait: its default body is `unreachable!()`.
unfoldable pub option_value : {V : Type 0} → Value V → Value (Option V)
option_value v = record {
  can_read_from = v.can_read_from;
  can_write_to = v.can_write_to;
  value_type = v.value_type;
  value_size = v.value_size;
  var_len = v.var_len;
  nullable = true;
  is_null = λ o. is_none o;
  copy_data = λ o dest. panic;
  indirect_data = λ o. elim o [ none ↦ panic | some x ↦ v.indirect_data x ];
  from_data = λ bytes. v.from_data bytes >>= λ x. ok (some x);
  from_null = ok none;
}
