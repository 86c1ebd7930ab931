-- ===== src/Key/Columns/Keys.antt =====
-- Primary keys of src/key.rs, encoded and decoded.
use kudu_rs.Base.{
  ==_iff, Bool, Bool-cases, List, [], ap, append-nil, append_assoc, arith, get_elem?,
  get_elem?-inside, if◌then◌else◌, inl, inr, length, ok, refl, some, subst, suc, sym, zero, ℕ,
  ℕ_discrete, ◌++◌, ◌+◌, ◌<◌, ◌==◌, ◌∙◌, ◌≡◌, ◌≢◌, ◌≤◌,
}
use kudu_rs.ByteOrder.{BigEndian, LittleEndian}
use kudu_rs.Key.Columns.{decode_column, decode_columns, encode_loop, indexes}
use kudu_rs.Key.Columns.Cases.{column-Step}
use kudu_rs.Key.Columns.Steps.{HasKey, KeyValue, Others, Step, number_key, text_key}
use kudu_rs.Row.{Row, VecMap}
use kudu_rs.Row.Columns.{IsRow}
use kudu_rs.Schema.{Column}
use kudu_rs.Types.{
  DataType, binary, bool, double, float, int16, int32, int64, int8, size, string, timestamp,
}
use kudu_rs.Value.{bytes_value, i16_value, i32_value, i64_value, i8_value, number_value, str_value}
use kudu_rs.Value.Lawful.{
  i16_value-IsLawful, i32_value-IsLawful, i64_value-IsLawful, i8_value-IsLawful, size_of,
  size_of_either,
}
use mathlib.Core.Option.{some-injective}

pub length-indexes : (idx n : ℕ) → length (indexes idx n) ≡ n
unfolding indexes
length-indexes idx zero = refl
length-indexes idx (suc n) = ap suc (length-indexes (suc idx) n)

module _ {M : Type 0} (vec_map : VecMap M) (big_endian : BigEndian) (little_endian : LittleEndian)
    (is_utf8 : List ℕ → Bool) (cs : List Column) where
  -- A key's value in a cell that reads as before.
  HasKey-Others :
      (idx : ℕ) (c : Column) (at_index : get_elem? cs idx ≡ some c) (r r' : Row M) (j : ℕ)
      (t : DataType) (v : KeyValue)
      → Others vec_map big_endian little_endian is_utf8 cs idx c at_index r r'
      → idx ≢ j
      → HasKey vec_map big_endian little_endian is_utf8 t r j v
      → HasKey vec_map big_endian little_endian is_utf8 t r' j v
  unfolding HasKey Others i8_value i16_value i32_value i64_value bytes_value str_value number_value
      size
  HasKey-Others idx c at_index r r' j t v others ne h = of_type t v h
    where
      of_type :
          (t : DataType) (v : KeyValue)
          → HasKey vec_map big_endian little_endian is_utf8 t r j v
          → HasKey vec_map big_endian little_endian is_utf8 t r' j v
      of_type int8 (number_key x) h =
          (others ℕ i8_value j (i8_value-IsLawful 0).size_of_column ne ∙ h.0, h.1)
      of_type int16 (number_key x) h = (
        others ℕ (i16_value little_endian) j
              (i16_value-IsLawful little_endian 0 (omega arith)).size_of_column ne
            ∙ h.0,
        h.1,
      )
      of_type int32 (number_key x) h = (
        others ℕ (i32_value little_endian) j
              (i32_value-IsLawful little_endian 0 (omega arith)).size_of_column ne
            ∙ h.0,
        h.1,
      )
      of_type int64 (number_key x) h = (
        others ℕ (i64_value little_endian) j
              (i64_value-IsLawful little_endian 0 (omega arith)).size_of_column ne
            ∙ h.0,
        h.1,
      )
      of_type timestamp (number_key x) h = (
        others ℕ (i64_value little_endian) j
              (i64_value-IsLawful little_endian 0 (omega arith)).size_of_column ne
            ∙ h.0,
        h.1,
      )
      of_type binary (text_key v) h =
          others (List ℕ) bytes_value j (size_of_either binary string refl) ne ∙ h
      of_type string (text_key v) h = others (List ℕ) (str_value is_utf8) j (size_of string) ne ∙ h
      of_type int8 (text_key v) h = absurd h
      of_type int16 (text_key v) h = absurd h
      of_type int32 (text_key v) h = absurd h
      of_type int64 (text_key v) h = absurd h
      of_type timestamp (text_key v) h = absurd h
      of_type binary (number_key x) h = absurd h
      of_type string (number_key x) h = absurd h
      of_type bool v h = absurd h
      of_type float v h = absurd h
      of_type double v h = absurd h

  -- The cells of the first `n` columns have the values of a key.
  abbrev pub HasKeys : (ℕ → KeyValue) → ℕ → Row M → Type 0
  HasKeys values n r =
      (j : ℕ) (c : Column)
      → j < n
      → get_elem? cs j ≡ some c
      → HasKey vec_map big_endian little_endian is_utf8 c.data_type r j (values j)

  -- The columns of a key from `idx` on, `k` of them.
  pub record Tail (values : ℕ → KeyValue) (n : ℕ) (r : Row M) (idx k : ℕ) (buf : List ℕ)
      : Type 0 where
    pub code : List ℕ
    pub ends : k ≡ 0 → code ≡ []
    pub encoded :
        encode_loop vec_map big_endian little_endian is_utf8 r n (suc idx) (indexes idx k) buf
        ≡ ok (buf ++ code)
    pub decoded :
        (into : Row M)
        → IsRow cs into
        → HasKeys values idx into
        → (r' : Row M) × (decode_columns vec_map big_endian little_endian is_utf8 n
              (indexes idx k)
              into
              code
            ≡ ok (r', []))
          × IsRow cs r'
          × HasKeys values n r'

  -- What follows the last column is nothing.
  nothing_left :
      (n idx k : ℕ) (rest : List ℕ)
      → idx + suc k ≡ n
      → (k ≡ 0 → rest ≡ [])
      → if suc idx == n then rest ≡ [] else Unit {0}
  nothing_left n idx k rest whole ends = elim (Bool-cases (suc idx == n)) [
    | inl e ↦ rw e (ends (omega (arith, whole, (==_iff (suc idx) n).0 e)))
    | inr e ↦ rw e tt
  ]

  module _ (values : ℕ → KeyValue) (n : ℕ) (r : Row M) (idx k : ℕ) (buf : List ℕ)
      (whole : idx + suc k ≡ n) (c : Column) (at_index : get_elem? cs idx ≡ some c) where
    Tail-cons :
        (s : Step vec_map big_endian little_endian is_utf8 cs idx c at_index r
          (suc idx == n)
          buf
          (values idx))
        → Tail values n r (suc idx) k (buf ++ s.code)
        → Tail values n r idx (suc k) buf
    unfolding encode_loop decode_columns indexes
    Tail-cons s t = record {
      code = s.code ++ t.code;
      ends = λ e. absurd (omega (arith, e));
      encoded = rw s.encoded (t.encoded ∙ ap ok (append_assoc buf s.code t.code));
      decoded = λ into row_into has_into.
          let (r1, decoded, row1, has1, others) =
            s.decoded into t.code row_into (nothing_left n idx k t.code whole t.ends) in
          let (r2, decoded_rest, row2, has2) =
            t.decoded r1 row1 (more_keys into r1 has1 others has_into) in
          (r2, rw (next_decoded into (s.code ++ t.code) ∙ decoded) decoded_rest, row2, has2);
    }
      where
        next : idx + 1 ≡ suc idx
        next = omega arith

        next_decoded :
            (into : Row M) (key : List ℕ)
            → decode_column vec_map big_endian little_endian is_utf8 into idx (idx + 1 == n) key
              ≡ decode_column vec_map big_endian little_endian is_utf8 into idx (suc idx == n) key
        next_decoded into key =
            ap
              (λ (i : ℕ).
                decode_column vec_map big_endian little_endian is_utf8 into idx (i == n) key)
              next

        same_cell :
            (r1 : Row M) (j : ℕ) (d : Column)
            → idx ≡ j
            → c ≡ d
            → HasKey vec_map big_endian little_endian is_utf8 c.data_type r1 idx (values idx)
            → HasKey vec_map big_endian little_endian is_utf8 d.data_type r1 j (values j)
        same_cell r1 j d e f h =
            subst
              (λ (i : ℕ).
                HasKey vec_map big_endian little_endian is_utf8 d.data_type r1 i (values i))
              e
              (subst
                (λ (x : Column).
                  HasKey vec_map big_endian little_endian is_utf8 x.data_type r1 idx (values idx))
                f h)

        more_keys :
            (into r1 : Row M)
            → HasKey vec_map big_endian little_endian is_utf8 c.data_type r1 idx (values idx)
            → Others vec_map big_endian little_endian is_utf8 cs idx c at_index into r1
            → HasKeys values idx into
            → HasKeys values (suc idx) r1
        more_keys into r1 has1 others has_into j d below at_j = elim (ℕ_discrete idx j) [
          | yes e ↦
              same_cell r1 j d e (some-injective c d (sym at_index ∙ ap (get_elem? cs) e ∙ at_j))
                has1
          | no ne ↦
              HasKey-Others idx c at_index into r1 j d.data_type (values j) others ne
                (has_into j d (omega (arith, below, ne)) at_j)
        ]

  pub keys-Tail :
      (values : ℕ → KeyValue) (n : ℕ) (r : Row M) (idx k : ℕ) (buf : List ℕ)
      → idx + k ≡ n
      → n ≤ length cs
      → IsRow cs r
      → HasKeys values n r
      → Tail values n r idx k buf
  unfolding encode_loop decode_columns indexes
  keys-Tail values n r idx zero buf whole fits row has = record {
    code = [];
    ends = λ e. refl;
    encoded = ap ok (sym (append-nil buf));
    decoded = λ into row_into has_into.
        (into, refl, row_into, λ j c below. has_into j c (omega (arith, whole, below)));
  }
  keys-Tail values n r idx (suc k) buf whole fits row has =
      let (c, at_index) = get_elem?-inside cs idx (omega (arith, whole, fits)) in
      let s =
        column-Step vec_map big_endian little_endian is_utf8 cs idx c at_index c.data_type refl r
          (suc idx == n) buf (values idx) row (has idx c (omega (arith, whole)) at_index) in
      Tail-cons values n r idx k buf whole c at_index s
        (keys-Tail values n r (suc idx) k (buf ++ s.code) (omega (arith, whole)) fits row has)
