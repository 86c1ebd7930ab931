-- ===== src/Writer/Lookup.antt =====
-- `op_lookup_complete` of src/writer.rs: an operation whose tablet is known goes to the buffer of the
-- tablet.
use kudu_rs.Base.{
  Bool, Error, List, Option, Outcome, [], backoff, false, if◌then◌else◌, leb, ltb,
  no_range_partition, none, ok, some, ℕ, ◌++◌, ◌==◌, ◌>>=◌, ◌∷◌,
}
use kudu_rs.Base.Words.{add_usize, sub_usize}
use kudu_rs.QueueMap.{QueueMap, index, remove}
use kudu_rs.Row.{Row}
use kudu_rs.Row.Encoder.{encoded_len}
use kudu_rs.Writer.{
  Buffer, Config, FlushState, OperationInLookup, State, WriteType, add_batch, buffer_data,
  flush_epoch, flush_state, modify, new_buffer, saturating_add, unwrap_option,
}

-- `Result<Option<TabletId>>`
pub data LookupResult (I : Type 0) : Type 0 where
  tablet_found : I → LookupResult I
  no_tablet : LookupResult I
  lookup_failed : Error → LookupResult I

pub record Completed (M C I : Type 0) : Type 0 where
  pub state : State M C I
  pub to_send : List (I × Buffer M)
  pub failed_op : Option (Row M × WriteType × Error)

module _ {C : Type 0} where
  abbrev pub drop_batch : FlushState C → FlushState C
  drop_batch f = record f { batches_outstanding = sub_usize f.batches_outstanding 1 }

  abbrev pub drop_lookup : FlushState C → FlushState C
  drop_lookup f = record f { lookups_outstanding = sub_usize f.lookups_outstanding 1 }

module _ {M : Type 0} where
  -- The buffer that takes the operation, and the full buffer that is sent, or neither.
  unfoldable pub choose_buffer :
      Config → ℕ → ℕ → Option (Buffer M) → ℕ → Option (Buffer M × Option (Buffer M))
  unfolding new_buffer buffer_data saturating_add
  choose_buffer config epoch encoded_len none in_flight = some (new_buffer epoch, none)
  choose_buffer config epoch encoded_len (some buffer) in_flight =
      if ltb config.max_data_per_batch (saturating_add (buffer_data buffer) encoded_len)
      then if leb config.max_batches_per_tablet in_flight
        then none
        else some (new_buffer epoch, some buffer)
      else some (buffer, none)

  unfoldable pub add_operation : ℕ → OperationInLookup M → Buffer M → Buffer M
  add_operation idx op buffer = record buffer {
    operations = buffer.operations ++ (op.op_row, idx, op.op_type) ∷ [];
    direct_buffered_data = add_usize buffer.direct_buffered_data op.direct_len;
    indirect_buffered_data = add_usize buffer.indirect_buffered_data op.indirect_len;
  }

  abbrev pub sent_buffer : {I : Type 0} → I → Option (Buffer M) → List (I × Buffer M)
  sent_buffer id none = []
  sent_buffer id (some buffer) = (id, buffer) ∷ []

module _ {M C : Type 0} where
  -- A buffer takes the epoch of an older operation.
  unfoldable pub back_date :
      ℕ → Buffer M → QueueMap (FlushState C) → Outcome (Buffer M × QueueMap (FlushState C))
  unfolding modify
  back_date epoch buffer flushes =
      if ltb epoch buffer.buffer_epoch
      then (do
        flushes ← modify flushes buffer.buffer_epoch drop_batch
        flushes ← modify flushes epoch add_batch
        ok (record buffer { buffer_epoch = epoch }, flushes))
      else ok (buffer, flushes)

module _ {M C I : Type 0} where
  -- The last lookup of an epoch that was closed flushes it.
  unfoldable pub flush_if_last : Config → ℕ → Completed M C I → Outcome (Completed M C I)
  unfolding flush_epoch flush_state
  flush_if_last config epoch done = do
    newest ← flush_epoch done.state
    last ←
        (if ltb epoch newest
          then (do f ← index done.state.flushes epoch; ok (f.lookups_outstanding == 0))
          else ok false)
    (if last
        then (do
          r ← flush_state config epoch done.state
          ok (record done { state = r.0; to_send = done.to_send ++ r.1 }))
        else ok done)

module _ {M I : Type 0} (eq_id : I → I → Bool) where
  -- `tablets.entry(id).or_insert_with(..)` and a write to this entry.
  unfoldable pub entry_of : I → List (I × Option (Buffer M) × ℕ) → Option (Buffer M) × ℕ
  entry_of id [] = (none, 0)
  entry_of id ((other, buffer, in_flight) ∷ rest) =
      if eq_id other id then (buffer, in_flight) else entry_of id rest

  unfoldable pub put_entry :
      I
      → Option (Buffer M) × ℕ
      → List (I × Option (Buffer M) × ℕ)
      → List (I × Option (Buffer M) × ℕ)
  put_entry id e [] = (id, e.0, e.1) ∷ []
  put_entry id e ((other, buffer, in_flight) ∷ rest) =
      if eq_id other id
      then (other, e.0, e.1) ∷ rest
      else (other, buffer, in_flight) ∷ put_entry id e rest

module _ {M C I : Type 0} (eq_id : I → I → Bool) where
  -- The arm of a tablet that was found.
  unfoldable pub to_tablet :
      Config → ℕ → OperationInLookup M → I → State M C I → Outcome (Completed M C I)
  unfolding entry_of put_entry choose_buffer add_operation back_date
  to_tablet config idx op id s =
      let encoded_len = add_usize op.direct_len op.indirect_len in
      let (buffer, in_flight) = entry_of eq_id id s.tablets in
      elim (choose_buffer config op.op_epoch encoded_len buffer in_flight) [
        | none ↦ ok (record {
          state = record s { tablets = put_entry eq_id id (buffer, in_flight) s.tablets };
          to_send = [];
          failed_op = some (op.op_row, op.op_type, backoff);
        })
        | some chosen ↦ back_date op.op_epoch (add_operation idx op chosen.0) s.flushes >>= λ r.
            ok (record {
              state = record s {
                tablets = put_entry eq_id id (some r.0, in_flight) s.tablets;
                flushes = r.1;
                buffered_data = add_usize s.buffered_data encoded_len;
              };
              to_send = sent_buffer id chosen.1;
              failed_op = none;
            })
      ]

  unfoldable pub deliver :
      Config → ℕ → OperationInLookup M → LookupResult I → State M C I → Outcome (Completed M C I)
  unfolding to_tablet
  deliver config idx op (tablet_found id) s = to_tablet config idx op id s
  deliver config idx op no_tablet s = ok (record {
    state = s;
    to_send = [];
    failed_op = some (op.op_row, op.op_type, no_range_partition);
  })
  deliver config idx op (lookup_failed e) s =
      ok (record { state = s; to_send = []; failed_op = some (op.op_row, op.op_type, e) })

  unfoldable pub op_lookup_complete :
      Config → ℕ → LookupResult I → State M C I → Outcome (Completed M C I)
  unfolding deliver flush_if_last modify remove
  op_lookup_complete config idx result s = do
    r ← remove s.operations_in_lookup idx
    op ← unwrap_option r.1
    flushes ← modify s.flushes op.op_epoch drop_lookup
    done ← deliver config idx op result (record s {
      operations_in_lookup = r.0;
      flushes = flushes;
      buffered_data = sub_usize s.buffered_data (add_usize op.direct_len op.indirect_len);
    })
    flush_if_last config op.op_epoch done
