-- ===== src/Row/Encoder.antt =====
-- `OperationEncoder` of src/row.rs: rows as they are sent to a tablet server. `push`, `resize` and
-- `truncate` are on lists; the values of the crate vec_map's map are a parameter.
use kudu_rs.Base.{
  Bool, List, Option, Outcome, [], false, if◌then◌else◌, leb, length, none, not, ok, panic,
  replicate, some, suc, take, true, ℕ, ◌++◌, ◌+◌, ◌>>=◌, ◌∷◌,
}
use kudu_rs.ByteOrder.{LittleEndian}
use kudu_rs.Row.{Row, VecMap, offset_of, slice, splice}
use kudu_rs.Schema.{Column, start}
use kudu_rs.Types.{is_var_len, size}
use kudu_rs.BitSet.{get as bit_get}

-- `RangePartitionBound` of src/table.rs.
pub data RangePartitionBound (M : Type 0) : Type 0 where
  inclusive : Row M → RangePartitionBound M
  exclusive : Row M → RangePartitionBound M

pub data OperationType : Type 0 where
  unknown_op : OperationType
  insert_op : OperationType
  update_op : OperationType
  delete_op : OperationType
  upsert_op : OperationType
  split_row : OperationType
  range_lower_bound : OperationType
  range_upper_bound : OperationType
  exclusive_range_lower_bound : OperationType
  inclusive_range_upper_bound : OperationType

-- `op_type as u8`
unfoldable pub op_code : OperationType → ℕ
op_code unknown_op = 0
op_code insert_op = 1
op_code update_op = 2
op_code delete_op = 3
op_code split_row = 4
op_code upsert_op = 5
op_code range_lower_bound = 6
op_code range_upper_bound = 7
op_code exclusive_range_lower_bound = 8
op_code inclusive_range_upper_bound = 9

pub record OperationEncoder : Type 0 where
  pub encoder_data : List ℕ
  pub encoder_indirect_data : List ℕ

unfoldable pub new_encoder : OperationEncoder
new_encoder = record { encoder_data = []; encoder_indirect_data = [] }

unfoldable pub clear_encoder : OperationEncoder → OperationEncoder
clear_encoder encoder = record encoder { encoder_data = []; encoder_indirect_data = [] }

-- The encoder in the loop, with the place of the next cell.
pub record Writing : Type 0 where
  pub direct : List ℕ
  pub indirect : List ℕ
  pub offset : ℕ

-- A write of bytes at a place, which panics out of bounds.
unfoldable pub write_at : List ℕ → ℕ → List ℕ → Outcome (List ℕ)
write_at bytes at written =
    if leb (at + length written) (length bytes) then ok (splice bytes at written) else panic

unfoldable pub sum_lengths : List (List ℕ) → ℕ
sum_lengths [] = 0
sum_lengths (v ∷ vs) = length v + sum_lengths vs

-- Indexing the map panics on a missing key.
unfoldable pub indirect_bytes : Option (List ℕ) → Outcome (List ℕ)
indirect_bytes none = panic
indirect_bytes (some bytes) = ok bytes

module _ {M : Type 0} where
  -- The cells that are sent: those that are set and not null.
  unfoldable pub is_encoded : Row M → ℕ → Column → Outcome Bool
  is_encoded r idx column = do
    is_set ← bit_get r.set_columns idx
    (if not is_set
        then ok false
        else if column.is_nullable
        then (do null ← bit_get r.null_columns idx; ok (not null))
        else ok true)

  -- The loop of `encoded_len` over the columns from `idx` on.
  unfoldable pub cells_len : Row M → ℕ → List Column → ℕ → Outcome ℕ
  unfolding is_encoded
  cells_len r idx [] direct = ok direct
  cells_len r idx (c ∷ cs) direct = do
    keep ← is_encoded r idx c
    cells_len r (suc idx) cs (if keep then direct + size c.data_type else direct)

  unfoldable pub encoded_len : (M → List (List ℕ)) → Row M → Outcome (ℕ × ℕ)
  unfolding cells_len sum_lengths
  encoded_len values r = do
    direct ← cells_len r 0 r.schema.columns (1 + length r.set_columns + length r.null_columns)
    ok (direct, sum_lengths (values r.row_indirect_data))

module _ {M : Type 0} (vec_map : VecMap M) (little_endian : LittleEndian) where
  unfoldable pub encode_indirect : Row M → ℕ → Column → Writing → Outcome Writing
  unfolding write_at indirect_bytes
  encode_indirect r idx c s = do
    bytes ← indirect_bytes (vec_map.find r.row_indirect_data idx)
    start ← write_at s.direct s.offset (little_endian.write_le 8 (length s.indirect))
    direct ← write_at start (s.offset + 8) (little_endian.write_le 8 (length bytes))
    ok (record s {
      direct = direct;
      indirect = s.indirect ++ bytes;
      offset = s.offset + size c.data_type;
    })

  unfoldable pub encode_direct : Row M → ℕ → Column → Writing → Outcome Writing
  unfolding write_at
  encode_direct r idx c s = do
    at ← offset_of r.schema idx
    bytes ← slice r.row_data at (size c.data_type)
    direct ← write_at s.direct s.offset bytes
    ok (record s { direct = direct; offset = s.offset + size c.data_type })

  unfoldable pub encode_cells : Row M → ℕ → List Column → Writing → Outcome Writing
  unfolding is_encoded encode_indirect encode_direct
  encode_cells r idx [] s = ok s
  encode_cells r idx (c ∷ cs) s = do
    keep ← is_encoded r idx c
    s ←
        (if not keep
          then ok s
          else if is_var_len c.data_type
          then encode_indirect r idx c s
          else encode_direct r idx c s)
    encode_cells r (suc idx) cs s

  unfoldable pub encode_row : OperationEncoder → OperationType → Row M → Outcome OperationEncoder
  unfolding encode_cells op_code
  encode_row encoder op_type r = do
    let front = encoder.encoder_data ++ (op_code op_type ∷ r.set_columns ++ r.null_columns)
    s ← encode_cells r 0 r.schema.columns (record {
      direct = front ++ replicate r.schema.row_size 0;
      indirect = encoder.encoder_indirect_data;
      offset = length front;
    })
    ok (record encoder {
      encoder_data = take s.offset s.direct;
      encoder_indirect_data = s.indirect;
    })

  -- `encode_range_split` and `encode_range_partition_split`
  unfoldable pub encode_range_split : OperationEncoder → Row M → Outcome OperationEncoder
  unfolding encode_row
  encode_range_split encoder row = encode_row encoder split_row row

  unfoldable pub lower_bound : RangePartitionBound M → Row M × OperationType
  lower_bound (inclusive row) = (row, range_lower_bound)
  lower_bound (exclusive row) = (row, exclusive_range_lower_bound)

  unfoldable pub upper_bound : RangePartitionBound M → Row M × OperationType
  upper_bound (inclusive row) = (row, inclusive_range_upper_bound)
  upper_bound (exclusive row) = (row, range_upper_bound)

  unfoldable pub encode_range_partition :
      OperationEncoder → RangePartitionBound M → RangePartitionBound M → Outcome OperationEncoder
  unfolding encode_row lower_bound upper_bound
  encode_range_partition encoder lower upper = do
    encoder ← encode_row encoder (lower_bound lower).1 (lower_bound lower).0
    encode_row encoder (upper_bound upper).1 (upper_bound upper).0
