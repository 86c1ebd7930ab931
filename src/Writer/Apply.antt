-- ===== src/Writer/Apply.antt =====
-- `apply` and `flush` of src/writer.rs. The crates and the test for UTF-8 that keys stand on are
-- arguments, as is the lookup that `apply` starts when it returns.
use kudu_rs.Base.{
  Bool, Error, List, Option, Outcome, backoff, err, if◌then◌else◌, invalid_argument, ltb, none, not,
  ok, panic, some, ℕ, ◌%◌, ◌*◌, ◌/◌, ◌>>=◌, ◌^◌,
}
use kudu_rs.Base.Words.{add_usize, sub_usize}
use kudu_rs.ByteOrder.{BigEndian, LittleEndian}
use kudu_rs.Key.Partitions.{PartitionSchema, encode_partition_key}
use kudu_rs.QueueMap.{push}
use kudu_rs.Row.{Row, VecMap}
use kudu_rs.Row.Encoder.{encoded_len}
use kudu_rs.Schema.{Schema}
use kudu_rs.Schema.Equality.{eq_schema}
use kudu_rs.Writer.{
  Buffer, Config, FlushState, State, WriteType, flush_epoch, flush_state, modify, new_flush,
  saturating_add,
}

pub data Applied : Type 0 where
  failed : Error → Applied
  -- The operation's index, and the partition key that is looked up.
  in_lookup : ℕ → List ℕ → Applied

module _ {C : Type 0} where
  abbrev pub add_lookup : FlushState C → FlushState C
  add_lookup flush = record flush { lookups_outstanding = add_usize flush.lookups_outstanding 1 }

module _ {M C I : Type 0} where
  -- What `apply` does with the lock: the state and the index of the operation, or the error.
  -- Early flushes are `unimplemented!()`.
  unfoldable pub admit :
      Config → Row M → WriteType → ℕ → ℕ → State M C I → Outcome (State M C I × Option ℕ)
  unfolding saturating_add flush_epoch modify push
  admit config row op_type direct_len indirect_len s =
      let data_sum = saturating_add s.buffered_data (add_usize direct_len indirect_len) in
      let watermark = (config.max_buffered_data / 100 * config.early_flush_watermark) % 2 ^ 64 in
      if ltb config.max_buffered_data data_sum
      then ok (s, none)
      else if ltb watermark data_sum
      then panic
      else (do
        epoch ← flush_epoch s
        flushes ← modify s.flushes epoch add_lookup
        let r = push s.operations_in_lookup (record {
          op_row = row;
          op_epoch = epoch;
          direct_len = direct_len;
          indirect_len = indirect_len;
          op_type = op_type;
        })
        ok (
          record s {
            operations_in_lookup = r.0;
            flushes = flushes;
            buffered_data = add_usize s.buffered_data data_sum;
          },
          some r.1,
        ))

  -- The new epoch's number less one is flushed.
  unfoldable pub flush : Config → C → State M C I → Outcome (State M C I × List (I × Buffer M))
  unfolding push new_flush modify flush_state
  flush config cb s = do
    let r = push s.flushes new_flush
    let epoch = sub_usize r.1 1
    flushes ← modify r.0 epoch (λ f. record f { callback = some cb })
    flush_state config epoch (record s { flushes = flushes })

module _ {M C I : Type 0} (vec_map : VecMap M) (big_endian : BigEndian)
    (little_endian : LittleEndian) (is_utf8 : List ℕ → Bool) (values : M → List (List ℕ)) where
  unfoldable pub apply :
      Config
      → Schema
      → PartitionSchema
      → Row M
      → WriteType
      → State M C I
      → Outcome (State M C I × Applied)
  unfolding eq_schema encode_partition_key encoded_len admit
  apply config schema partition_schema row op_type s =
      if not (eq_schema row.schema schema)
      then ok (s, failed invalid_argument)
      else keyed
          (encode_partition_key vec_map big_endian little_endian is_utf8 partition_schema row)
    where
      admitted : List ℕ → State M C I × Option ℕ → Outcome (State M C I × Applied)
      admitted key (s, none) = ok (s, failed backoff)
      admitted key (s, some idx) = ok (s, in_lookup idx key)

      keyed : Outcome (List ℕ) → Outcome (State M C I × Applied)
      keyed panic = panic
      keyed (err e) = ok (s, failed e)
      keyed (ok key) = do
        r ← encoded_len values row
        (if ltb config.max_data_per_batch (add_usize r.0 r.1)
            then ok (s, failed invalid_argument)
            else (do r ← admit config row op_type r.0 r.1 s; admitted key r))
