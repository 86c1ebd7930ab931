-- ===== src/Writer.antt =====
-- src/writer.rs: the state of a `Writer`, which batches operations by their tablets, and what its
-- methods do under its lock. `usize` and `u8` arithmetic wraps. `HashMap` is an association list.
pub mod Apply
pub mod Lookup
pub mod Batches
pub mod Data
pub mod Faults
pub mod Sent
pub mod Complete
mod Runs
use kudu_rs.Base.{
  Bool, List, Option, Outcome, [], if◌then◌else◌, leb, length, ltb, none, ok, panic, set, some, suc,
  true, ℕ, ◌%◌, ◌&&◌, ◌+◌, ◌-◌, ◌==◌, ◌>>=◌, ◌^◌, ◌∷◌,
}
use kudu_rs.Base.Words.{add_usize}
use kudu_rs.QueueMap.{QueueMap, back_key, collect, index, iter, new, offset, push}
use kudu_rs.Row.{Row}
use kudu_rs.Row.Encoder.{OperationType, delete_op, insert_op, update_op, upsert_op}

pub record Config : Type 0 where
  pub max_buffered_data : ℕ
  pub max_data_per_batch : ℕ
  pub max_batches_per_tablet : ℕ
  pub early_flush_watermark : ℕ

pub data WriteType : Type 0 where
  insert_row : WriteType
  update_row : WriteType
  upsert_row : WriteType
  delete_row : WriteType

unfoldable pub write_type_to_pb : WriteType → OperationType
write_type_to_pb insert_row = insert_op
write_type_to_pb update_row = update_op
write_type_to_pb upsert_row = upsert_op
write_type_to_pb delete_row = delete_op

pub record OperationInLookup (M : Type 0) : Type 0 where
  pub op_row : Row M
  pub op_epoch : ℕ
  pub direct_len : ℕ
  pub indirect_len : ℕ
  pub op_type : WriteType

pub record Buffer (M : Type 0) : Type 0 where
  pub operations : List (Row M × ℕ × WriteType)
  pub direct_buffered_data : ℕ
  pub indirect_buffered_data : ℕ
  pub buffer_epoch : ℕ

unfoldable pub new_buffer : {M : Type 0} → ℕ → Buffer M
new_buffer epoch_at = record {
  operations = [];
  direct_buffered_data = 0;
  indirect_buffered_data = 0;
  buffer_epoch = epoch_at;
}

unfoldable pub buffer_data : {M : Type 0} → Buffer M → ℕ
buffer_data b = add_usize b.direct_buffered_data b.indirect_buffered_data

pub record FlushStats : Type 0 where
  pub epoch : ℕ
  pub successful_batches : ℕ
  pub failed_batches : ℕ
  pub successful_operations : ℕ
  pub failed_operations : ℕ
  pub flushed_data : ℕ

unfoldable pub new_stats : ℕ → FlushStats
new_stats epoch = record {
  epoch = epoch;
  successful_batches = 0;
  failed_batches = 0;
  successful_operations = 0;
  failed_operations = 0;
  flushed_data = 0;
}

-- A callback is a value of `C`, which a completed flush is given to.
pub record FlushState (C : Type 0) : Type 0 where
  pub stats : FlushStats
  pub lookups_outstanding : ℕ
  pub batches_outstanding : ℕ
  pub callback : Option C

unfoldable pub new_flush : {C : Type 0} → FlushState C
unfolding new_stats
new_flush = record {
  stats = new_stats 0;
  lookups_outstanding = 0;
  batches_outstanding = 0;
  callback = none;
}

-- The tablets' identifiers are values of `I`.
pub record State (M C I : Type 0) : Type 0 where
  pub operations_in_lookup : QueueMap (OperationInLookup M)
  pub tablets : List (I × Option (Buffer M) × ℕ)
  pub flushes : QueueMap (FlushState C)
  pub buffered_data : ℕ

-- `usize::saturating_add`
unfoldable pub saturating_add : ℕ → ℕ → ℕ
saturating_add a b = if ltb (a + b) (2 ^ 64) then a + b else 2 ^ 64 - 1

-- A write to `queue[key]`, which panics where there is no element.
unfoldable pub modify : {T : Type 0} → QueueMap T → ℕ → (T → T) → Outcome (QueueMap T)
modify s key f = do
  value ← index s key
  ok (record s { queue = set s.queue (offset s key) (some (f value)) })

-- `unwrap` of an option
unfoldable pub unwrap_option : {A : Type 0} → Option A → Outcome A
unwrap_option none = panic
unwrap_option (some a) = ok a

-- What the loop over the tablets leaves: the tablets, the flushes, and the buffers to be sent.
pub record Flushed (M C I : Type 0) : Type 0 where
  pub kept : List (I × Option (Buffer M) × ℕ)
  pub counted : QueueMap (FlushState C)
  pub sent : List (I × Buffer M)

module _ {C : Type 0} where
  -- `take_while(epoch <= last).all(no lookups)` on the flushes that are left.
  unfoldable pub has_no_lookups : ℕ → List (ℕ × FlushState C) → Bool
  has_no_lookups last [] = true
  has_no_lookups last ((epoch, f) ∷ rest) =
      if leb epoch last then (f.lookups_outstanding == 0) && has_no_lookups last rest else true

  unfoldable pub flush_entries : QueueMap (FlushState C) → List (ℕ × FlushState C)
  unfolding collect iter
  flush_entries flushes = collect (suc (length flushes.queue)) (iter flushes)

  abbrev pub add_batch : FlushState C → FlushState C
  add_batch f = record f { batches_outstanding = add_usize f.batches_outstanding 1 }

module _ {M C I : Type 0} where
  -- `Writer::new` with its configuration put aside. The first flush is pushed inside of
  -- `debug_assert_eq!`, whose arguments only a debug build evaluates.
  unfoldable pub new_state : Bool → State M C I
  unfolding new_flush push new
  new_state debug = record {
    operations_in_lookup = new;
    tablets = [];
    flushes = if debug then (push new new_flush).0 else new;
    buffered_data = 0;
  }

  unfoldable pub flush_epoch : State M C I → Outcome ℕ
  unfolding back_key unwrap_option
  flush_epoch s = unwrap_option (back_key s.flushes)

  unfoldable pub flush_tablets :
      Config
      → ℕ
      → List (I × Option (Buffer M) × ℕ)
      → QueueMap (FlushState C)
      → Outcome (Flushed M C I)
  unfolding modify
  flush_tablets config epoch [] flushes = ok (record { kept = []; counted = flushes; sent = [] })
  flush_tablets config epoch ((id, none, outstanding) ∷ rest) flushes = do
    r ← flush_tablets config epoch rest flushes
    ok (record r { kept = (id, none, outstanding) ∷ r.kept })
  flush_tablets config epoch ((id, some buffer, outstanding) ∷ rest) flushes =
      let sends = (buffer.buffer_epoch == epoch) && ltb outstanding config.max_batches_per_tablet in
      (if sends then modify flushes epoch add_batch else ok flushes) >>= λ flushes.
      flush_tablets config epoch rest flushes >>= λ r. ok (
        if sends
        then (record {
          kept = (id, none, (outstanding + 1) % 2 ^ 8) ∷ r.kept;
          counted = r.counted;
          sent = (id, buffer) ∷ r.sent;
        })
        else record r { kept = (id, some buffer, outstanding) ∷ r.kept })

  -- `State::flush`: the state, and the buffers that are to be sent.
  unfoldable pub flush_state :
      Config → ℕ → State M C I → Outcome (State M C I × List (I × Buffer M))
  unfolding flush_tablets has_no_lookups flush_entries
  flush_state config epoch s =
      if has_no_lookups epoch (flush_entries s.flushes)
      then (flush_tablets config epoch s.tablets s.flushes >>= λ r.
          ok (record s { tablets = r.kept; flushes = r.counted }, r.sent))
      else ok (s, [])
