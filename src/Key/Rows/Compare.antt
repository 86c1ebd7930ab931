-- ===== src/Key/Rows/Compare.antt =====
-- Rows of src/row.rs compare as their primary keys of src/key.rs do.
use kudu_rs.Base.{
  ==_iff, Bool, List, Ordering, ap, arith, drop, drop-cons, false, get_elem?-inside, length, le→leb,
  ok, refl, set, some, suc, sym, take, true, zero, ℕ, ◌&&◌, ◌+◌, ◌∙◌, ◌≡◌, ◌≤◌,
}
use kudu_rs.ByteOrder.{BigEndian, LittleEndian}
use kudu_rs.Bytes.{cmp_bytes, then_cmp}
use kudu_rs.Key.Columns.{encode_primary_key}
use kudu_rs.Key.Columns.Compare.{cmp_bytes-encode_primary_key}
use kudu_rs.Key.Columns.Keys.{HasKeys}
use kudu_rs.Key.Columns.Order.{cmp_values}
use kudu_rs.Key.Columns.Steps.{KeyValue}
use kudu_rs.Key.Rows.{or_rest, partial_cmp, partial_cmp_loop}
use kudu_rs.Key.Rows.Cells.{Compared, column-Compared}
use kudu_rs.Row.{Row, VecMap}
use kudu_rs.Row.Columns.{IsRow}
use kudu_rs.Schema.{Column, Schema, primary_key}
use kudu_rs.Schema.Equality.{eq_schema}

or_rest-then_cmp : (o p : Ordering) → or_rest o (ok (some p)) ≡ ok (some (then_cmp o p))
or_rest-then_cmp Ordering.lt p = refl
or_rest-then_cmp Ordering.eq p = refl
or_rest-then_cmp Ordering.gt p = refl

eq_schema-num :
    (s t : Schema) → eq_schema s t ≡ true → s.num_primary_key_columns ≡ t.num_primary_key_columns
unfolding eq_schema
eq_schema-num s t h = (==_iff s.num_primary_key_columns t.num_primary_key_columns).0 (of_and _ _ h)
  where
    of_and : (p q : Bool) → (p && q) ≡ true → p ≡ true
    of_and true q h = refl
    of_and false q h = h

module _ {M : Type 0} (vec_map : VecMap M) (big_endian : BigEndian) (little_endian : LittleEndian)
    (is_utf8 : List ℕ → Bool) where
  module _ (cs : List Column) (n : ℕ) (v w : ℕ → KeyValue) (a b : Row M) (fits : n ≤ length cs)
      (row_a : IsRow cs a) (row_b : IsRow cs b)
      (ha : HasKeys vec_map big_endian little_endian is_utf8 cs v n a)
      (hb : HasKeys vec_map big_endian little_endian is_utf8 cs w n b) where
    partial_cmp_loop-cmp_values :
        (idx k : ℕ)
        → idx + k ≡ n
        → partial_cmp_loop vec_map little_endian is_utf8 idx (take k (drop idx cs)) a b
          ≡ ok (some (cmp_values idx (take k (drop idx cs)) v w))
    unfolding partial_cmp_loop cmp_values Compared
    partial_cmp_loop-cmp_values idx zero whole = refl
    partial_cmp_loop-cmp_values idx (suc k) whole =
        let (c, at_idx) = get_elem?-inside cs idx (omega (arith, whole, fits)) in
        let (set, compared) =
          column-Compared vec_map big_endian little_endian is_utf8 a b idx cs c at_idx row_a row_b
            c.data_type (v idx) (w idx) refl (ha idx c (omega (arith, whole)) at_idx)
            (hb idx c (omega (arith, whole)) at_idx) in
        rw
          (
            drop-cons cs idx c at_idx,
            set,
            compared,
            partial_cmp_loop-cmp_values (suc idx) k (omega (arith, whole)),
          )
          (or_rest-then_cmp _ _)

  -- Two rows of equal schemas, whose `n` key columns have values that can stand in a key, have
  -- primary keys, and `partial_cmp` compares the rows as these keys compare as byte strings.
  pub partial_cmp-encode_primary_key :
      (cs : List Column) (n : ℕ) (v w : ℕ → KeyValue) (a b : Row M)
      → n ≤ length cs
      → eq_schema a.schema b.schema ≡ true
      → a.schema.num_primary_key_columns ≡ n
      → IsRow cs a × IsRow cs b
      → HasKeys vec_map big_endian little_endian is_utf8 cs v n a
      → HasKeys vec_map big_endian little_endian is_utf8 cs w n b
      → (x y : List ℕ) × (encode_primary_key vec_map big_endian little_endian is_utf8 a ≡ ok x)
        × (encode_primary_key vec_map big_endian little_endian is_utf8 b ≡ ok y)
        × (partial_cmp vec_map little_endian is_utf8 a b ≡ ok (some (cmp_bytes x y)))
  partial_cmp-encode_primary_key cs n v w a b fits same_schema num rows ha hb =
      let (x, y, encoded_a, encoded_b, compared) =
        cmp_bytes-encode_primary_key vec_map big_endian little_endian is_utf8 cs n v w a b fits
          (num, sym (eq_schema-num a.schema b.schema same_schema) ∙ num) rows ha hb in
      (
        x,
        y,
        encoded_a,
        encoded_b,
        unfold partial_cmp in
            rw (same_schema, key_columns)
              (partial_cmp_loop-cmp_values cs n v w a b fits rows.0 rows.1 ha hb 0 n (omega arith)
                ∙ ap (λ (o : Ordering). ok (some o)) (sym compared)),
      )
    where
      key_columns : primary_key a.schema ≡ ok (take n cs)
      key_columns =
          unfold primary_key in
          rw (num, rows.0.laid_out.has_columns, le→leb n (length cs) fits) refl
