-- ===== src/Key/Columns/Order.antt =====
-- The primary keys of src/key.rs compare as the values of their columns do.
use kudu_rs.Base.{
  ==_iff, Bool, List, Ordering, [], ap, append-nil, arith, false, if◌then◌else◌, length, refl, suc,
  true, ℕ, ◌++◌, ◌+◌, ◌==◌, ◌∙◌, ◌∷◌, ◌≡◌,
}
use kudu_rs.ByteOrder.{BigEndian, LittleEndian}
use kudu_rs.Bytes.{cmp_bytes, cmp_bytes_self, then_cmp}
use kudu_rs.Key.Binary.{encode_binary}
use kudu_rs.Key.Binary.RoundTrip.{cmp_bytes-encode_binary}
use kudu_rs.Key.Columns.Steps.{HasKey, KeyValue, number_key, text_key, value_code}
use kudu_rs.Key.Ints.Signed.{cmp_bytes-encode_int, cmp_signed}
use kudu_rs.Row.{Row, VecMap}
use kudu_rs.Schema.{Column}
use kudu_rs.Types.{
  DataType, binary, bool, double, float, int16, int32, int64, int8, string, timestamp,
}

-- The order of values in a key column of a type.
unfoldable pub cmp_value : DataType → KeyValue → KeyValue → Ordering
cmp_value int8 (number_key x) (number_key y) = cmp_signed 1 x y
cmp_value int16 (number_key x) (number_key y) = cmp_signed 2 x y
cmp_value int32 (number_key x) (number_key y) = cmp_signed 4 x y
cmp_value int64 (number_key x) (number_key y) = cmp_signed 8 x y
cmp_value timestamp (number_key x) (number_key y) = cmp_signed 8 x y
cmp_value binary (text_key v) (text_key w) = cmp_bytes v w
cmp_value string (text_key v) (text_key w) = cmp_bytes v w
cmp_value _ v w = Ordering.eq

-- The order of rows of values: the first columns that differ decide.
unfoldable pub cmp_values : ℕ → List Column → (ℕ → KeyValue) → (ℕ → KeyValue) → Ordering
cmp_values idx [] v w = Ordering.eq
cmp_values idx (c ∷ cs) v w =
    then_cmp (cmp_value c.data_type (v idx) (w idx)) (cmp_values (suc idx) cs v w)

then_cmp-eq : (o : Ordering) → then_cmp o Ordering.eq ≡ o
then_cmp-eq Ordering.lt = refl
then_cmp-eq Ordering.eq = refl
then_cmp-eq Ordering.gt = refl

module _ {M : Type 0} (vec_map : VecMap M) (big_endian : BigEndian) (little_endian : LittleEndian)
    (is_utf8 : List ℕ → Bool) where
  -- Texts in a key compare as they are, followed by anything where they are not the last column.
  cmp_text :
      (v w r s : List ℕ) (is_last : Bool)
      → (if is_last then (r ≡ []) × (s ≡ []) else Unit {0})
      → cmp_bytes (encode_binary v is_last [] ++ r) (encode_binary w is_last [] ++ s)
        ≡ then_cmp (cmp_bytes v w) (cmp_bytes r s)
  cmp_text v w r s false h = cmp_bytes-encode_binary v w r s
  cmp_text v w r s true h =
      unfold encode_binary in
      rw (h.0, h.1, append-nil v, append-nil w, cmp_bytes_self [], then_cmp-eq (cmp_bytes v w)) refl

  cmp-value_code :
      (t : DataType) (a b : Row M) (i : ℕ) (is_last : Bool) (v w : KeyValue) (r s : List ℕ)
      → HasKey vec_map big_endian little_endian is_utf8 t a i v
      → HasKey vec_map big_endian little_endian is_utf8 t b i w
      → (if is_last then (r ≡ []) × (s ≡ []) else Unit {0})
      → cmp_bytes
          (value_code vec_map big_endian little_endian is_utf8 t is_last v ++ r)
          (value_code vec_map big_endian little_endian is_utf8 t is_last w ++ s)
        ≡ then_cmp (cmp_value t v w) (cmp_bytes r s)
  unfolding HasKey value_code cmp_value
  cmp-value_code int8 a b i is_last (number_key x) (number_key y) r s hx hy h =
      cmp_bytes-encode_int big_endian 1 x y r s (omega arith) hx.1 hy.1
  cmp-value_code int16 a b i is_last (number_key x) (number_key y) r s hx hy h =
      cmp_bytes-encode_int big_endian 2 x y r s (omega arith) hx.1 hy.1
  cmp-value_code int32 a b i is_last (number_key x) (number_key y) r s hx hy h =
      cmp_bytes-encode_int big_endian 4 x y r s (omega arith) hx.1 hy.1
  cmp-value_code int64 a b i is_last (number_key x) (number_key y) r s hx hy h =
      cmp_bytes-encode_int big_endian 8 x y r s (omega arith) hx.1 hy.1
  cmp-value_code timestamp a b i is_last (number_key x) (number_key y) r s hx hy h =
      cmp_bytes-encode_int big_endian 8 x y r s (omega arith) hx.1 hy.1
  cmp-value_code binary a b i is_last (text_key v) (text_key w) r s hx hy h =
      cmp_text v w r s is_last h
  cmp-value_code string a b i is_last (text_key v) (text_key w) r s hx hy h =
      cmp_text v w r s is_last h
  cmp-value_code int8 a b i is_last (text_key v) w r s hx hy h = absurd hx
  cmp-value_code int16 a b i is_last (text_key v) w r s hx hy h = absurd hx
  cmp-value_code int32 a b i is_last (text_key v) w r s hx hy h = absurd hx
  cmp-value_code int64 a b i is_last (text_key v) w r s hx hy h = absurd hx
  cmp-value_code timestamp a b i is_last (text_key v) w r s hx hy h = absurd hx
  cmp-value_code int8 a b i is_last (number_key x) (text_key w) r s hx hy h = absurd hy
  cmp-value_code int16 a b i is_last (number_key x) (text_key w) r s hx hy h = absurd hy
  cmp-value_code int32 a b i is_last (number_key x) (text_key w) r s hx hy h = absurd hy
  cmp-value_code int64 a b i is_last (number_key x) (text_key w) r s hx hy h = absurd hy
  cmp-value_code timestamp a b i is_last (number_key x) (text_key w) r s hx hy h = absurd hy
  cmp-value_code binary a b i is_last (number_key x) w r s hx hy h = absurd hx
  cmp-value_code string a b i is_last (number_key x) w r s hx hy h = absurd hx
  cmp-value_code binary a b i is_last (text_key v) (number_key x) r s hx hy h = absurd hy
  cmp-value_code string a b i is_last (text_key v) (number_key x) r s hx hy h = absurd hy
  cmp-value_code bool a b i is_last v w r s hx hy h = absurd hx
  cmp-value_code float a b i is_last v w r s hx hy h = absurd hx
  cmp-value_code double a b i is_last v w r s hx hy h = absurd hx

  -- The key of columns from `idx` on.
  unfoldable pub keys_code : ℕ → ℕ → List Column → (ℕ → KeyValue) → List ℕ
  keys_code n idx [] v = []
  keys_code n idx (c ∷ cs) v =
      value_code vec_map big_endian little_endian is_utf8 c.data_type (suc idx == n) (v idx)
      ++ keys_code n (suc idx) cs v

  unfoldable pub KeysFrom : ℕ → List Column → (ℕ → KeyValue) → Row M → Type 0
  KeysFrom idx [] v r = Unit {0}
  KeysFrom idx (c ∷ cs) v r =
      HasKey vec_map big_endian little_endian is_utf8 c.data_type r idx (v idx)
      × KeysFrom (suc idx) cs v r

  pub cmp-keys_code :
      (n idx : ℕ) (cs : List Column) (v w : ℕ → KeyValue) (a b : Row M)
      → idx + length cs ≡ n
      → KeysFrom idx cs v a
      → KeysFrom idx cs w b
      → cmp_bytes (keys_code n idx cs v) (keys_code n idx cs w) ≡ cmp_values idx cs v w
  unfolding keys_code KeysFrom cmp_values
  cmp-keys_code n idx [] v w a b whole ha hb = cmp_bytes_self []
  cmp-keys_code n idx (c ∷ cs) v w a b whole ha hb =
      cmp-value_code c.data_type a b idx (suc idx == n) (v idx) (w idx) (keys_code n (suc idx) cs v)
        (keys_code n (suc idx) cs w) ha.0 hb.0 (ends (suc idx == n) refl)
      ∙ ap (then_cmp (cmp_value c.data_type (v idx) (w idx)))
          (cmp-keys_code n (suc idx) cs v w a b (omega (arith, whole)) ha.1 hb.1)
    where
      nothing_behind :
          suc idx ≡ n
          → (ds : List Column) → idx + suc (length ds) ≡ n
          → (u : ℕ → KeyValue) → keys_code n (suc idx) ds u ≡ []
      nothing_behind e [] w u = refl
      nothing_behind e (d ∷ ds) w u = absurd (omega (arith, e, w))

      ends :
          (is_last : Bool)
          → (suc idx == n) ≡ is_last
          → if is_last
            then (keys_code n (suc idx) cs v ≡ []) × (keys_code n (suc idx) cs w ≡ [])
            else Unit {0}
      ends false e = tt
      ends true e =
          let last : suc idx ≡ n = (==_iff (suc idx) n).0 e in
          (nothing_behind last cs whole v, nothing_behind last cs whole w)
