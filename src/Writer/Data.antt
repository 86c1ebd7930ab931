-- ===== src/Writer/Data.antt =====
-- The data that src/writer.rs counts as buffered.
use kudu_rs.Base.{
  ==_refl, >>=-eq_ok, Bool, List, Option, Outcome, [], ap, ap₂, arith, false, if◌then◌else◌, ltb,
  lt→ltb, none, ok, ok-injective, panic, refl, some, suc, sym, true, ℕ, ◌%◌, ◌*◌, ◌++◌, ◌+◌, ◌<◌,
  ◌==◌, ◌>>=◌, ◌^◌, ◌∙◌, ◌≡◌,
}
use kudu_rs.Base.Words.{add_usize}
use kudu_rs.QueueMap.{QueueMap, index, push, push_with, remove}
use kudu_rs.QueueMap.Insert.{push-Wrote}
use kudu_rs.QueueMap.Remove.{remove-Cleared}
use kudu_rs.QueueMap.View.{IsValid}
use kudu_rs.Row.{Row}
use kudu_rs.Writer.{
  Buffer, Config, OperationInLookup, State, WriteType, flush_entries, flush_epoch, flush_state,
  flush_tablets, has_no_lookups, modify, saturating_add, unwrap_option,
}
use kudu_rs.Writer.Apply.{add_lookup, admit}
use kudu_rs.Writer.Lookup.{
  Completed, LookupResult, deliver, drop_lookup, flush_if_last, lookup_failed, no_tablet,
  op_lookup_complete, tablet_found,
}
use mathlib.Core.Option.{some-injective}

-- A lookup that fails, or finds no tablet.
abbrev pub is_found : {I : Type 0} → LookupResult I → Bool
is_found (tablet_found id) = true
is_found no_tablet = false
is_found (lookup_failed e) = false

-- The operation of `remove` is the one that was pushed last.
remove-push :
    {T : Type 0} (q : QueueMap T) (op : T) (r : QueueMap T × Option T)
    → IsValid q
    → suc q.next_key < 2 ^ 64
    → remove (push q op).0 q.next_key ≡ ok r
    → r.1 ≡ some op
remove-push {T = T} q op r valid small h =
    let (wrote, pushed, _) = push-Wrote q (λ _. op) valid small in
    let (left, removed, _) = remove-Cleared (push_with q (λ _. op)) q.next_key wrote.valid in
    ap (λ (x : QueueMap T × Option T). x.1)
      (ok-injective _ _
        (sym h ∙ ap (λ (x : QueueMap T × ℕ). remove x.0 q.next_key) pushed ∙ removed))
    ∙ wrote.changes q.next_key
    ∙ rw (==_refl q.next_key) refl

module _ {M C I : Type 0} where
  -- What `apply` leaves of an operation that it admits.
  record Admitted (s : State M C I) (op : OperationInLookup M) (s' : State M C I) (idx : ℕ)
      : Type 0 where
    pub pushed : s'.operations_in_lookup ≡ (push s.operations_in_lookup op).0
    pub index_is : idx ≡ s.operations_in_lookup.next_key
    pub data_is :
        s'.buffered_data
        ≡ add_usize s.buffered_data
            (saturating_add s.buffered_data (add_usize op.direct_len op.indirect_len))

  admit-Admitted :
      (config : Config) (row : Row M) (op_type : WriteType) (direct_len indirect_len : ℕ)
      (s s' : State M C I) (idx : ℕ)
      → admit config row op_type direct_len indirect_len s ≡ ok (s', some idx)
      → (op : OperationInLookup M) × (op.direct_len ≡ direct_len)
        × (op.indirect_len ≡ indirect_len)
        × Admitted s op s' idx
  unfolding admit push
  admit-Admitted config row op_type direct_len indirect_len s s' idx h =
      let past = not_refused (ltb config.max_buffered_data _) (ltb _ _) _ h in
      let (epoch, _, counted) = >>=-eq_ok (flush_epoch s) _ (s', some idx) past in
      let (flushes, _, done) =
        >>=-eq_ok (modify s.flushes epoch add_lookup) _ (s', some idx) counted in
      let outcome = ok-injective _ _ done in
      (
        record {
          op_row = row;
          op_epoch = epoch;
          direct_len = direct_len;
          indirect_len = indirect_len;
          op_type = op_type;
        },
        refl,
        refl,
        record {
          pushed = sym (ap (λ (r : State M C I × Option ℕ). r.0.operations_in_lookup) outcome);
          index_is = sym (some-injective _ _ (ap (λ (r : State M C I × Option ℕ). r.1) outcome));
          data_is = sym (ap (λ (r : State M C I × Option ℕ). r.0.buffered_data) outcome);
        },
      )
    where
      not_refused :
          (a b : Bool) (rest : Outcome (State M C I × Option ℕ))
          → (if a then ok (s, none) else if b then panic else rest) ≡ ok (s', some idx)
          → rest ≡ ok (s', some idx)
      not_refused true b rest h = cc
      not_refused false true rest h = cc
      not_refused false false rest h = h

  flush_state-buffered_data :
      (config : Config) (epoch : ℕ) (s : State M C I) (r : State M C I × List (I × Buffer M))
      → flush_state config epoch s ≡ ok r
      → r.0.buffered_data ≡ s.buffered_data
  unfolding flush_state
  flush_state-buffered_data config epoch s r h =
      of_test (has_no_lookups epoch (flush_entries s.flushes)) h
    where
      of_test :
          (ready : Bool)
          → (if ready
              then (flush_tablets config epoch s.tablets s.flushes >>= λ r.
                  ok (record s { tablets = r.kept; flushes = r.counted }, r.sent))
              else ok (s, []))
            ≡ ok r
          → r.0.buffered_data ≡ s.buffered_data
      of_test true h =
          let (f, _, done) = >>=-eq_ok (flush_tablets config epoch s.tablets s.flushes) _ r h in
          sym (
            ap (λ (r : State M C I × List (I × Buffer M)). r.0.buffered_data)
              (ok-injective _ _ done))
      of_test false h =
          sym
            (ap (λ (r : State M C I × List (I × Buffer M)). r.0.buffered_data) (ok-injective _ _ h))

  flush_if_last-buffered_data :
      (config : Config) (epoch : ℕ) (c done : Completed M C I)
      → flush_if_last config epoch c ≡ ok done
      → done.state.buffered_data ≡ c.state.buffered_data
  unfolding flush_if_last
  flush_if_last-buffered_data config epoch c done h =
      let (newest, _, past) = >>=-eq_ok (flush_epoch c.state) _ done h in
      let (last, _, rest) =
        >>=-eq_ok
          (if ltb epoch newest
            then (do f ← index c.state.flushes epoch; ok (f.lookups_outstanding == 0))
            else ok false)
          _ done past in
      of_last last rest
    where
      of_last :
          (last : Bool)
          → (if last
              then (do
                r ← flush_state config epoch c.state
                ok (record c { state = r.0; to_send = c.to_send ++ r.1 }))
              else ok c)
            ≡ ok done
          → done.state.buffered_data ≡ c.state.buffered_data
      of_last true h =
          let (r, flushed, done_is) = >>=-eq_ok (flush_state config epoch c.state) _ done h in
          sym (ap (λ (d : Completed M C I). d.state.buffered_data) (ok-injective _ _ done_is))
          ∙ flush_state-buffered_data config epoch c.state r flushed
      of_last false h =
          sym (ap (λ (d : Completed M C I). d.state.buffered_data) (ok-injective _ _ h))

  deliver-state :
      (eq_id : I → I → Bool) (config : Config) (idx : ℕ) (op : OperationInLookup M)
      (result : LookupResult I) (s : State M C I) (c : Completed M C I)
      → is_found result ≡ false
      → deliver eq_id config idx op result s ≡ ok c
      → c.state ≡ s
  unfolding deliver
  deliver-state eq_id config idx op (tablet_found id) s c e h = cc
  deliver-state eq_id config idx op no_tablet s c e h =
      sym (ap (λ (d : Completed M C I). d.state) (ok-injective _ _ h))
  deliver-state eq_id config idx op (lookup_failed error) s c e h =
      sym (ap (λ (d : Completed M C I). d.state) (ok-injective _ _ h))

  -- An operation that is admitted and whose tablet is then not found, as long as the data of both
  -- fits, is counted as buffered no more, but what was buffered before is counted twice.
  pub op_lookup_complete-admit :
      (eq_id : I → I → Bool) (config : Config) (row : Row M) (op_type : WriteType)
      (direct_len indirect_len : ℕ) (result : LookupResult I) (s s' : State M C I) (idx : ℕ)
      (done : Completed M C I)
      → IsValid s.operations_in_lookup
      → suc s.operations_in_lookup.next_key < 2 ^ 64
      → 2 * s.buffered_data + (direct_len + indirect_len) < 2 ^ 64
      → is_found result ≡ false
      → admit config row op_type direct_len indirect_len s ≡ ok (s', some idx)
      → op_lookup_complete eq_id config idx result s' ≡ ok done
      → done.state.buffered_data ≡ 2 * s.buffered_data
  unfolding op_lookup_complete saturating_add
  op_lookup_complete-admit eq_id config row op_type direct_len indirect_len result s s' idx done
        valid small fits lost admitted h =
      let (op, same_direct, same_indirect, a) =
        admit-Admitted config row op_type direct_len indirect_len s s' idx admitted in
      let (r, removed, past_remove) = >>=-eq_ok (remove s'.operations_in_lookup idx) _ done h in
      let (op', unwrapped, past_op) = >>=-eq_ok (unwrap_option r.1) _ done past_remove in
      let (flushes, _, past_count) =
        >>=-eq_ok (modify s'.flushes op'.op_epoch drop_lookup) _ done past_op in
      let (c, delivered, flushed) =
        >>=-eq_ok (deliver eq_id config idx op' result _) _ done past_count in
      let same_op : op' ≡ op = sym (
        ok-injective _ _ (
          sym (
            unfold unwrap_option in
            ap (λ (o : Option (OperationInLookup M)). unwrap_option o)
              (remove-push s.operations_in_lookup op r valid small (
                sym (
                  ap₂ (λ (q : QueueMap (OperationInLookup M)) (k : ℕ). remove q k) a.pushed
                    a.index_is)
                ∙ removed)))
          ∙ unwrapped)) in
      flush_if_last-buffered_data config op'.op_epoch c done flushed
      ∙ ap (λ (x : State M C I). x.buffered_data)
          (deliver-state eq_id config idx op' result _ c lost delivered)
      ∙ rw
          (
            same_op,
            same_direct,
            same_indirect,
            a.data_is,
            same_direct,
            same_indirect,
            lt→ltb (s.buffered_data + (direct_len + indirect_len) % 2 ^ 64) (2 ^ 64)
                (omega (arith, fits)),
          )
          (omega (arith, fits))
