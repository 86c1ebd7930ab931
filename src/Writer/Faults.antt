-- ===== src/Writer/Faults.antt =====
-- What the state of src/writer.rs cannot do.
use kudu_rs.Base.{
  Bool, Option, Outcome, false, if◌then◌else◌, inl, inr, ltb, none, ok, panic, refl, true, ℕ, ◌≡◌,
  ◌⊎◌,
}
use kudu_rs.QueueMap.{back_key, index, is_empty, new, offset, push}
use kudu_rs.Row.{Row}
use kudu_rs.Writer.{Config, State, WriteType, flush_epoch, modify, new_state, unwrap_option}
use kudu_rs.Writer.Apply.{admit, flush}

module _ {M C I : Type 0} where
  -- The writer that a release build makes has no flush: `flush` panics, and no operation is admitted,
  -- since whatever is not refused for its size panics.
  pub flush-new_state :
      (config : Config) (cb : C) (row : Row M) (op_type : WriteType) (direct_len indirect_len : ℕ)
      → let s : State M C I = new_state false in
        (flush config cb s ≡ panic)
        × ((admit config row op_type direct_len indirect_len s ≡ panic)
            ⊎ (admit config row op_type direct_len indirect_len s ≡ ok (s, none)))
  unfolding flush admit new_state flush_epoch push new modify index offset back_key is_empty
      unwrap_option
  flush-new_state config cb row op_type direct_len indirect_len =
      (refl, refused (ltb config.max_buffered_data _) (ltb _ _))
    where
      refused :
          (a b : Bool)
          → let r : Outcome (State M C I × Option ℕ) =
              if a then ok (new_state false, none) else if b then panic else panic in
            (r ≡ panic) ⊎ (r ≡ ok (new_state false, none))
      refused true b = inr refl
      refused false true = inl refl
      refused false false = inl refl
