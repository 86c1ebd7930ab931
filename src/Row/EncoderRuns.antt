-- ===== src/Row/EncoderRuns.antt =====
-- Runs of `OperationEncoder` of src/row.rs, and its theorem at a concrete row.
use kudu_rs.Base.{
  List, Option, [], ap, arith, false, length, none, ok, refl, suc, take, zero, ℕ, ◌+◌, ◌∷◌, ◌≡◌,
}
use kudu_rs.BitSet.{get, mask}
use kudu_rs.Row.{Row, offset_of, slice, splice}
use kudu_rs.Row.Columns.{IsRow}
use kudu_rs.Row.Encoded.{IsFilled}
use kudu_rs.Row.EncodedLen.{encode_row-encoded_len}
use kudu_rs.Row.Encoder.{OperationEncoder, encode_row, encoded_len, insert_op, new_encoder}
use kudu_rs.Row.Runs.{bytes_by_index, low_first}
use kudu_rs.Schema.{Column, builder, new}
use kudu_rs.Schema.Layout.{new-LaidOut, width}
use kudu_rs.Types.{int32, is_var_len, size}
use mathlib.Core.Option.{some-injective}

abbrev Map : Type 0
Map = ℕ → Option (List ℕ)

-- A column of 32-bit integers, and a row that holds 258.
abbrev one_column : List Column
one_column = record (builder (107 ∷ []) int32) { is_nullable = false } ∷ []

abbrev one_row : Row Map
one_row = record {
  row_data = 2 ∷ 1 ∷ 0 ∷ 0 ∷ [];
  row_indirect_data = λ i. none;
  set_columns = 1 ∷ [];
  null_columns = [];
  schema = new one_column 1;
}

encoder_code : Unit {0}
unfolding size builder new get mask encode_row is_var_len slice offset_of splice new_encoder
    encoded_len
encoder_code = tt

-- An insert: its number, the set columns and the integer.
encode_one_row :
    encode_row bytes_by_index low_first new_encoder insert_op one_row
    ≡ ok (record { encoder_data = 1 ∷ 1 ∷ 2 ∷ 1 ∷ 0 ∷ 0 ∷ []; encoder_indirect_data = [] })
unfolding encoder_code
encode_one_row = refl

one_row-IsRow : IsRow one_column one_row
unfolding size builder new
one_row-IsRow = record {
  laid_out = new-LaidOut one_column 1 (unfold width size builder in omega arith);
  data_room = refl;
  set_room = omega arith;
  null_room = λ e. cc;
}

one_row-IsFilled : IsFilled bytes_by_index low_first one_column one_row one_row-IsRow
unfolding is_var_len builder
one_row-IsFilled zero c at var_len kept = cc (
    ap (λ (x : Column). is_var_len x.data_type)
      (some-injective (record (builder (107 ∷ []) int32) { is_nullable = false }) c at))
one_row-IsFilled (suc idx) c at var_len kept = cc

encode_row-encoded_len_example :
    (encoder' : OperationEncoder) × (n : ℕ × ℕ) × (encode_row bytes_by_index low_first new_encoder
        insert_op one_row
      ≡ ok encoder')
    × (encoded_len (λ m. []) one_row ≡ ok n)
    × (length encoder'.encoder_data ≡ length new_encoder.encoder_data + n.0)
    × (take (length new_encoder.encoder_data) encoder'.encoder_data ≡ new_encoder.encoder_data)
encode_row-encoded_len_example =
    encode_row-encoded_len bytes_by_index low_first one_column one_row one_row-IsRow
      one_row-IsFilled new_encoder insert_op (λ m. [])
