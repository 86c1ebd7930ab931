-- ===== src/Writer/Runs.antt =====
-- Runs of src/writer.rs, and its theorems at concrete states.
use kudu_rs.Base.{
  All, List, Option, [], arith, false, length, no_range_partition, none, ok, panic, refl, some,
  true, ℕ, ◌%◌, ◌*◌, ◌+◌, ◌==◌, ◌>>=◌, ◌^◌, ◌∷◌, ◌≡◌, ◌⊎◌,
}
use kudu_rs.Key.Runs.{key_row}
use kudu_rs.QueueMap.{
  back_key, front_key, index, is_empty, key_offset, new, next, offset, push, remove, trim_front,
}
use kudu_rs.QueueMap.View.{IsValid, count_some}
use kudu_rs.Writer.{
  Buffer, Config, OperationInLookup, State, flush_epoch, flush_state, insert_row, modify, new_flush,
  new_state, saturating_add, unwrap_option,
}
use kudu_rs.Writer.Apply.{admit, flush}
use kudu_rs.Writer.Batches.{BatchResult, batch_complete, take_complete}
use kudu_rs.Writer.Complete.{packed, split_complete, take_complete-split_complete}
use kudu_rs.Writer.Data.{op_lookup_complete-admit}
use kudu_rs.Writer.Faults.{flush-new_state}
use kudu_rs.Writer.Lookup.{
  Completed, deliver, flush_if_last, no_tablet, op_lookup_complete, tablet_found, to_tablet,
}
use kudu_rs.Writer.Sent.{IsOfEpoch, IsUnready, flush_state-Sends, weigh_kept, weigh_sent}

abbrev config : Config
config = record {
  max_buffered_data = 1000;
  max_data_per_batch = 100;
  max_batches_per_tablet = 2;
  early_flush_watermark = 80;
}

abbrev Indirect : Type 0
Indirect = ℕ → Option (List ℕ)

-- Seven bytes are buffered, and no operation is in lookup.
abbrev seven : State Indirect ℕ ℕ
seven = record (new_state true) { buffered_data = 7 }

abbrev operation : OperationInLookup Indirect
operation = record {
  op_row = key_row;
  op_epoch = 0;
  direct_len = 4;
  indirect_len = 6;
  op_type = insert_row;
}

-- An operation of ten bytes is admitted: 7 + (7 + 10) bytes are counted.
abbrev admitted : State Indirect ℕ ℕ
admitted = record {
  operations_in_lookup = record { queue = some operation ∷ []; next_key = 1; len = 1 };
  tablets = [];
  flushes = record {
    queue = some (record new_flush { lookups_outstanding = 1 }) ∷ [];
    next_key = 1;
    len = 1;
  };
  buffered_data = 24;
}

writer_code : Unit {0}
unfolding admit op_lookup_complete flush batch_complete new_state new_flush push new remove modify
    index offset key_offset flush_epoch back_key front_key is_empty unwrap_option deliver to_tablet
    flush_if_last flush_state saturating_add trim_front count_some next
writer_code = tt

admit_ten : admit config key_row insert_row 4 6 seven ≡ ok (admitted, some 0)
unfolding writer_code
admit_ten = refl

-- Its lookup finds no tablet: fourteen bytes are left.
abbrev lost : Completed Indirect ℕ ℕ
lost = record {
  state = record {
    operations_in_lookup = record { queue = []; next_key = 1; len = 0 };
    tablets = [];
    flushes = record { queue = some new_flush ∷ []; next_key = 1; len = 1 };
    buffered_data = 14;
  };
  to_send = [];
  failed_op = some (key_row, insert_row, no_range_partition);
}

lose_ten : op_lookup_complete ◌==◌ config 0 no_tablet admitted ≡ ok lost
unfolding writer_code
lose_ten = refl

seven-IsValid : IsValid seven.operations_in_lookup
unfolding writer_code
seven-IsValid = record { bounded = omega arith; small = omega arith; counted = refl }

op_lookup_complete-admit_example : lost.state.buffered_data ≡ 2 * 7
op_lookup_complete-admit_example =
    op_lookup_complete-admit ◌==◌ config key_row insert_row 4 6 no_tablet seven admitted 0 lost
      seven-IsValid (unfold writer_code in omega arith) (omega arith) refl admit_ten lose_ten

flush-new_state_example :
    let s : State Indirect ℕ ℕ = new_state false in
    (flush config 0 s ≡ panic)
    × ((admit config key_row insert_row 4 6 s ≡ panic)
        ⊎ (admit config key_row insert_row 4 6 s ≡ ok (s, none)))
flush-new_state_example = flush-new_state config 0 key_row insert_row 4 6

abbrev ten_written : BatchResult
ten_written = record {
  success = true;
  batch_epoch = 0;
  batch_successful = 1;
  batch_failed = 0;
  batch_data = 10;
}

-- A tablet is found, the epoch is flushed with its buffer, and the batch completes it.
write_ten :
    (op_lookup_complete ◌==◌ config 0 (tablet_found 5) admitted >>= λ c.
    flush config 9 c.state >>= λ f. batch_complete ◌==◌ 5 ten_written f.0 >>= λ b. ok b.1)
    ≡ ok (
        (
          9,
          record {
            epoch = 0;
            successful_batches = 1;
            failed_batches = 0;
            successful_operations = 1;
            failed_operations = 0;
            flushed_data = 10;
          },
        )
        ∷ [])
unfolding writer_code
write_ten = refl

abbrev one_buffer : ℕ → Buffer Indirect
one_buffer n = record {
  operations = (key_row, 0, insert_row) ∷ [];
  direct_buffered_data = 4;
  indirect_buffered_data = 6;
  buffer_epoch = n;
}

-- Two flushes, and a tablet with a buffer for each.
abbrev two_flushes : State Indirect ℕ ℕ
two_flushes = record {
  operations_in_lookup = new;
  tablets = (5, some (one_buffer 0), 0) ∷ (6, some (one_buffer 1), 0) ∷ [];
  flushes = record { queue = some new_flush ∷ some new_flush ∷ []; next_key = 2; len = 2 };
  buffered_data = 20;
}

flush_state-Sends_example :
    (s' : State Indirect ℕ ℕ) × (sent : List (ℕ × Buffer Indirect)) × (flush_state config 0
        two_flushes
      ≡ ok (s', sent))
    × All (IsOfEpoch config 0) sent
    × All (IsUnready config 0) s'.tablets
    × (index s'.flushes 0
        ≡ ok (record new_flush { batches_outstanding = (0 + length sent) % 2 ^ 64 }))
    × ((weight : ℕ × Buffer Indirect → ℕ)
        → weigh_kept weight s'.tablets + weigh_sent weight sent
          ≡ weigh_kept weight two_flushes.tablets)
unfolding writer_code
flush_state-Sends_example = flush_state-Sends config 0 two_flushes new_flush refl (omega arith) refl

-- Two complete flushes, of which the newest stays.
take_complete-split_complete_example :
    take_complete 2 7 (packed 7 (new_flush {C = ℕ} ∷ new_flush ∷ []))
    ≡ ok (new_flush ∷ [], packed 8 (new_flush ∷ []))
unfolding new_flush split_complete
take_complete-split_complete_example =
    take_complete-split_complete 2 7 new_flush (new_flush ∷ []) (omega arith) (omega arith)
