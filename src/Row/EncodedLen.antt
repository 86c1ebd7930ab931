-- ===== src/Row/EncodedLen.antt =====
-- What `OperationEncoder` of src/row.rs writes of a row, as long as `encoded_len` says.
use kudu_rs.Base.{
  Bool, List, [], ap, append_assoc, arith, false, get_elem?, if◌then◌else◌, length, length-append,
  length-replicate, ok, refl, replicate, some, suc, take, take-append_length, true, ℕ, ◌++◌, ◌+◌,
  ◌∙◌, ◌∷◌, ◌≡◌, ◌≤◌,
}
use kudu_rs.ByteOrder.{LittleEndian}
use kudu_rs.Row.{Row, VecMap}
use kudu_rs.Row.Columns.{IsRow}
use kudu_rs.Row.Encoded.{Advanced, IsFilled, encode_cell-Advanced, is_encoded-total}
use kudu_rs.Row.Encoder.{
  OperationEncoder, OperationType, Writing, cells_len, encode_cells, encode_row, encoded_len,
  op_code, sum_lengths,
}
use kudu_rs.Row.Slices.{length-take, take-drop-take}
use kudu_rs.Schema.{Column}
use kudu_rs.Schema.Layout.{width}
use kudu_rs.Types.{size}

module _ {M : Type 0} (vec_map : VecMap M) (little_endian : LittleEndian) (cs : List Column)
    (r : Row M) (row : IsRow cs r) (filled : IsFilled vec_map little_endian cs r row) where
  -- The loop over the last columns, and that of `encoded_len`.
  cells-Advanced :
      (idx : ℕ) (rest : List Column) (s : Writing) (n : ℕ)
      → ((i : ℕ) (c : Column) → get_elem? rest i ≡ some c → get_elem? cs (idx + i) ≡ some c)
      → s.offset + width rest ≤ length s.direct
      → (s' : Writing) × (m : ℕ) × (encode_cells vec_map little_endian r idx rest s ≡ ok s')
        × (cells_len r idx rest n ≡ ok (n + m))
        × Advanced s s' m
        × (m ≤ width rest)
  unfolding encode_cells cells_len width
  cells-Advanced idx [] s n at h = (
    s,
    0,
    refl,
    ap ok (omega arith),
    (record { as_long = refl; moved = omega arith; before = λ k le. refl }),
    omega arith,
  )
  cells-Advanced idx (c ∷ rest) s n at h =
      let at_idx = ap (get_elem? cs) (plus_zero idx) ∙ at 0 c refl in
      let (keep, kept) = is_encoded-total vec_map little_endian cs r row idx c at_idx in
      let (s1, step, advanced) =
        encode_cell-Advanced vec_map little_endian cs r row idx c s keep filled at_idx kept
          (omega (arith, h)) in
      let taken = if keep then size c.data_type else 0 in
      let (s2, m, steps, lens, advanced', within) =
        cells-Advanced (suc idx) rest s1 (n + taken)
          (λ i d at_i. ap (get_elem? cs) (suc_plus idx i) ∙ at (suc i) d at_i)
          (omega (arith, h, advanced.as_long, advanced.moved, taken_le keep (size c.data_type))) in
      (
        s2,
        taken + m,
        rw (kept, step) steps,
        rw kept (
            ap (cells_len r (suc idx) rest) (add_taken keep n (size c.data_type))
            ∙ lens
            ∙ ap ok (omega arith)),
        (record {
          as_long = advanced'.as_long ∙ advanced.as_long;
          moved = omega (arith, advanced'.moved, advanced.moved);
          before =
              λ k le. advanced'.before k (omega (arith, le, advanced.moved)) ∙ advanced.before k le;
        }),
        omega (arith, within, taken_le keep (size c.data_type)),
      )
    where
      plus_zero : (i : ℕ) → i ≡ i + 0
      plus_zero i = omega arith

      suc_plus : (i j : ℕ) → suc i + j ≡ i + suc j
      suc_plus i j = omega arith

      taken_le : (b : Bool) (x : ℕ) → (if b then x else 0) ≤ x
      taken_le true x = omega arith
      taken_le false x = omega arith

      add_taken : (b : Bool) (x y : ℕ) → (if b then x + y else x) ≡ x + (if b then y else 0)
      add_taken true x y = refl
      add_taken false x y = omega arith

  -- Encoding a row whose cells of variable length have their bytes does not panic, keeps the
  -- direct data that is there, and appends as many direct bytes to it as `encoded_len` says.
  pub encode_row-encoded_len :
      (encoder : OperationEncoder) (op_type : OperationType) (values : M → List (List ℕ))
      → (encoder' : OperationEncoder) × (n : ℕ × ℕ) × (encode_row vec_map little_endian encoder
            op_type r
          ≡ ok encoder')
        × (encoded_len values r ≡ ok n)
        × (length encoder'.encoder_data ≡ length encoder.encoder_data + n.0)
        × (take (length encoder.encoder_data) encoder'.encoder_data ≡ encoder.encoder_data)
  unfolding encode_row encoded_len
  encode_row-encoded_len encoder op_type values =
      let header = op_code op_type ∷ r.set_columns ++ r.null_columns in
      let front = encoder.encoder_data ++ header in
      let zeros : List ℕ = replicate r.schema.row_size 0 in
      let s : Writing = record {
        direct = front ++ zeros;
        indirect = encoder.encoder_indirect_data;
        offset = length front;
      } in
      let long = length-append front zeros in
      let zeros_long = length-replicate {A = ℕ} r.schema.row_size 0 in
      let (s', m, steps, lens, advanced, within) =
        cells-Advanced 0 cs s (1 + length r.set_columns + length r.null_columns)
          (λ i c at. ap (get_elem? cs) (omega arith) ∙ at)
          (omega (arith, long, zeros_long, row.laid_out.has_row_size)) in
      let columns = row.laid_out.has_columns in
      let fits : s'.offset ≤ length s'.direct = omega (
        arith, long, zeros_long, row.laid_out.has_row_size, advanced.as_long, advanced.moved,
        within,
      ) in
      (
        record encoder {
          encoder_data = take s'.offset s'.direct;
          encoder_indirect_data = s'.indirect;
        },
        (
          1 + length r.set_columns + length r.null_columns + m,
          sum_lengths (values r.row_indirect_data),
        ),
        rw (ap (λ (x : List Column). encode_cells vec_map little_endian r 0 x s) columns ∙ steps)
            refl,
        rw
            (ap
                (λ (x : List Column).
                  cells_len r 0 x (1 + length r.set_columns + length r.null_columns))
                columns
              ∙ lens)
            refl,
        length-take s'.offset s'.direct fits
            ∙ omega (
              arith,
              advanced.moved,
              length-append encoder.encoder_data header,
              length-append r.set_columns r.null_columns,
            ),
        take-drop-take 0 (length encoder.encoder_data) s'.offset s'.direct
              (omega (arith, advanced.moved, length-append encoder.encoder_data header))
            ∙ advanced.before (length encoder.encoder_data)
                (omega (arith, length-append encoder.encoder_data header))
            ∙ ap (take (length encoder.encoder_data))
                (append_assoc encoder.encoder_data header zeros)
            ∙ take-append_length encoder.encoder_data (header ++ zeros),
      )
