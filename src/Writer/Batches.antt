-- ===== src/Writer/Batches.antt =====
-- `batch_complete` of src/writer.rs: the batches in flight and the flushes that they complete.
use kudu_rs.Base.{
  Bool, List, Option, Outcome, [], if◌then◌else◌, length, ltb, not, ok, panic, suc, zero, ℕ, ◌%◌,
  ◌&&◌, ◌+◌, ◌==◌, ◌>>=◌, ◌^◌, ◌∷◌,
}
use kudu_rs.Base.Words.{add_usize, sub_usize}
use kudu_rs.QueueMap.{QueueMap, front_key, index, pop}
use kudu_rs.Writer.{Buffer, FlushState, FlushStats, State, modify, unwrap_option}

pub record BatchResult : Type 0 where
  pub success : Bool
  pub batch_epoch : ℕ
  pub batch_successful : ℕ
  pub batch_failed : ℕ
  pub batch_data : ℕ

unfoldable pub count_batch : {C : Type 0} → BatchResult → FlushState C → FlushState C
count_batch b f = record f {
  stats = record f.stats {
    successful_batches =
        if b.success then add_usize f.stats.successful_batches 1 else f.stats.successful_batches;
    failed_batches =
        if b.success then f.stats.failed_batches else add_usize f.stats.failed_batches 1;
    successful_operations = add_usize f.stats.successful_operations b.batch_successful;
    failed_operations = add_usize f.stats.failed_operations b.batch_failed;
    flushed_data = add_usize f.stats.flushed_data b.batch_data;
  };
  batches_outstanding = sub_usize f.batches_outstanding 1;
}

abbrev pub is_complete : {C : Type 0} → FlushState C → Bool
is_complete f = (f.lookups_outstanding == 0) && (f.batches_outstanding == 0)

module _ {C : Type 0} where
  -- The loop that removes the complete flushes, whose fuel is one for each that it may remove;
  -- running out of it is shown as a panic.
  unfoldable pub take_complete :
      ℕ → ℕ → QueueMap (FlushState C) → Outcome (List (FlushState C) × QueueMap (FlushState C))
  unfolding index pop front_key unwrap_option
  take_complete zero oldest flushes = panic
  take_complete (suc fuel) oldest flushes = index flushes oldest >>= λ f.
      if ltb 1 flushes.len && is_complete f
      then (pop flushes >>= λ r. unwrap_option r.1 >>= λ popped.
          unwrap_option (front_key r.0) >>= λ oldest.
          take_complete fuel oldest r.0 >>= λ rest. ok (popped.1 ∷ rest.0, rest.1))
      else ok ([], flushes)

  -- `callback.unwrap().call(stats)` for each.
  unfoldable pub call_all : List (FlushState C) → Outcome (List (C × FlushStats))
  unfolding unwrap_option
  call_all [] = ok []
  call_all (f ∷ rest) = do
    cb ← unwrap_option f.callback
    calls ← call_all rest
    ok ((cb, f.stats) ∷ calls)

module _ {M I : Type 0} (eq_id : I → I → Bool) where
  -- `tablets.get_mut(&tablet).unwrap().1 -= 1`
  unfoldable pub end_batch :
      I → List (I × Option (Buffer M) × ℕ) → Outcome (List (I × Option (Buffer M) × ℕ))
  end_batch id [] = panic
  end_batch id ((other, buffer, in_flight) ∷ rest) =
      let ended = end_batch id rest in
      if eq_id other id
      then ok ((other, buffer, (in_flight + 255) % 2 ^ 8) ∷ rest)
      else ended >>= λ rest. ok ((other, buffer, in_flight) ∷ rest)

module _ {M C I : Type 0} (eq_id : I → I → Bool) where
  -- The state, and the callbacks that are called with their statistics, which are sent as events
  -- too.
  unfoldable pub batch_complete :
      I → BatchResult → State M C I → Outcome (State M C I × List (C × FlushStats))
  unfolding end_batch modify count_batch front_key take_complete call_all
  batch_complete tablet b s = do
    tablets ← end_batch eq_id tablet s.tablets
    flushes ← modify s.flushes b.batch_epoch (count_batch b)
    oldest ← unwrap_option (front_key flushes)
    r ←
        (if not (b.batch_epoch == oldest)
          then ok ([], flushes)
          else take_complete (suc (length flushes.queue)) oldest flushes)
    calls ← call_all r.0
    ok (
      record s {
        tablets = tablets;
        flushes = r.1;
        buffered_data = sub_usize s.buffered_data b.batch_data;
      },
      calls,
    )
