-- ===== src/Writer/Sent.antt =====
-- What `State::flush` of src/writer.rs sends and what it keeps.
-- A write to an element leaves the others' places alone.
use kudu_rs.Base.{
  ==_iff, All, Bool, Bool-cases, List, Option, [], ap, arith, false, get_elem?, inl, inr, length,
  length-set, ltb, none, ok, ok-injective, panic, refl, set, some, suc, true, zero, ℕ, ◌%◌, ◌&&◌,
  ◌+◌, ◌<◌, ◌==◌, ◌^◌, ◌∙◌, ◌∷◌, ◌≡◌,
}
use kudu_rs.QueueMap.{QueueMap, index, offset}
use kudu_rs.Writer.{
  Buffer, Config, FlushState, Flushed, State, add_batch, flush_entries, flush_state, flush_tablets,
  has_no_lookups, modify,
}

get_elem?-set :
    {A : Type 0} (xs : List A) (i : ℕ) (old v : A)
    → get_elem? xs i ≡ some old
    → get_elem? (set xs i v) i ≡ some v
get_elem?-set [] i old v h = cc
get_elem?-set (x ∷ xs) zero old v h = refl
get_elem?-set (x ∷ xs) (suc i) old v h = get_elem?-set xs i old v h

module _ {T : Type 0} (s : QueueMap T) (key : ℕ) where
  filled :
      (o : Option (Option T)) (v : T)
      → elim o [ none ↦ panic | some e ↦ elim e [ none ↦ panic | some v ↦ ok v ] ] ≡ ok v
      → o ≡ some (some v)
  filled none v h = cc
  filled (some none) v h = cc
  filled (some (some w)) v h = ap (λ (x : T). some (some x)) (ok-injective w v h)

  modify-ok :
      (v : T) (g : T → T)
      → index s key ≡ ok v
      → modify s key g ≡ ok (record s { queue = set s.queue (offset s key) (some (g v)) })
  unfolding modify
  modify-ok v g h = rw h refl

  index-modify :
      (v : T) (g : T → T)
      → index s key ≡ ok v
      → index (record s { queue = set s.queue (offset s key) (some (g v)) }) key ≡ ok (g v)
  unfolding index offset
  index-modify v g h =
      rw
        (
          index,
          offset,
          length-set s.queue (offset s key) (some (g v)),
          get_elem?-set s.queue (offset s key) (some v) (some (g v)) (filled _ v h),
        )
        refl

module _ {M I : Type 0} (config : Config) (epoch : ℕ) where
  -- A tablet without a buffer that can be sent for the epoch.
  abbrev pub IsUnready : I × Option (Buffer M) × ℕ → Type 0
  IsUnready (id, none, outstanding) = Unit {0}
  IsUnready (id, some buffer, outstanding) =
      ((buffer.buffer_epoch == epoch) && ltb outstanding config.max_batches_per_tablet) ≡ false

  abbrev pub IsOfEpoch : I × Buffer M → Type 0
  IsOfEpoch (id, buffer) = buffer.buffer_epoch ≡ epoch

-- What weighs all buffers of the tablets, and all that are sent.
module _ {M I : Type 0} (weight : I × Buffer M → ℕ) where
  unfoldable pub weigh_kept : List (I × Option (Buffer M) × ℕ) → ℕ
  weigh_kept [] = 0
  weigh_kept ((id, none, outstanding) ∷ ts) = weigh_kept ts
  weigh_kept ((id, some buffer, outstanding) ∷ ts) = weight (id, buffer) + weigh_kept ts

  unfoldable pub weigh_sent : List (I × Buffer M) → ℕ
  weigh_sent [] = 0
  weigh_sent (b ∷ bs) = weight b + weigh_sent bs

module _ {M C I : Type 0} (config : Config) (epoch : ℕ) where
  record Sends (f : FlushState C) (fl : QueueMap (FlushState C))
      (ts : List (I × Option (Buffer M) × ℕ)) : Type 0 where
    pub result : Flushed M C I
    pub returns : flush_tablets config epoch ts fl ≡ ok result
    pub of_epoch : All (IsOfEpoch config epoch) result.sent
    pub unready : All (IsUnready config epoch) result.kept
    pub balanced :
        (weight : I × Buffer M → ℕ)
        → weigh_kept weight result.kept + weigh_sent weight result.sent ≡ weigh_kept weight ts
    pub counts :
        index result.counted epoch
        ≡ ok (record f {
          batches_outstanding = (f.batches_outstanding + length result.sent) % 2 ^ 64;
        })

  flush_tablets-Sends :
      (ts : List (I × Option (Buffer M) × ℕ)) (f : FlushState C) (fl : QueueMap (FlushState C))
      → index fl epoch ≡ ok f
      → f.batches_outstanding < 2 ^ 64
      → Sends f fl ts
  unfolding flush_tablets weigh_kept weigh_sent
  flush_tablets-Sends [] f fl h small = record {
    result = record { kept = []; counted = fl; sent = [] };
    returns = refl;
    of_epoch = tt;
    unready = tt;
    balanced = λ weight. refl;
    counts = h ∙ ap (λ (n : ℕ). ok (record f { batches_outstanding = n })) (omega (arith, small));
  }
  flush_tablets-Sends ((id, none, outstanding) ∷ ts) f fl h small =
      let r = flush_tablets-Sends ts f fl h small in
      (record {
        result = record r.result { kept = (id, none, outstanding) ∷ r.result.kept };
        returns = rw r.returns refl;
        of_epoch = r.of_epoch;
        unready = (tt, r.unready);
        balanced = r.balanced;
        counts = r.counts;
      })
  flush_tablets-Sends ((id, some buffer, outstanding) ∷ ts) f fl h small =
      elim (Bool-cases
        ((buffer.buffer_epoch == epoch) && ltb outstanding config.max_batches_per_tablet)) [
          | inl ready ↦
              let fl' = record fl { queue = set fl.queue (offset fl epoch) (some (add_batch f)) } in
              let r =
                flush_tablets-Sends ts (add_batch f) fl' (index-modify fl epoch f add_batch h)
                  (omega arith) in
              (record {
                result = record {
                  kept = (id, none, (outstanding + 1) % 2 ^ 8) ∷ r.result.kept;
                  counted = r.result.counted;
                  sent = (id, buffer) ∷ r.result.sent;
                };
                returns = rw (ready, modify-ok fl epoch f add_batch h, r.returns) refl;
                of_epoch = ((==_iff buffer.buffer_epoch epoch).0 (of_and _ _ ready), r.of_epoch);
                unready = (tt, r.unready);
                balanced = λ weight. omega (arith, r.balanced weight);
                counts =
                    r.counts
                    ∙ ap (λ (n : ℕ). ok (record f { batches_outstanding = n })) (omega arith);
              })
          | inr waits ↦
              let r = flush_tablets-Sends ts f fl h small in
              (record {
                result = record r.result { kept = (id, some buffer, outstanding) ∷ r.result.kept };
                returns = rw (waits, r.returns) refl;
                of_epoch = r.of_epoch;
                unready = (waits, r.unready);
                balanced = λ weight. omega (arith, r.balanced weight);
                counts = r.counts;
              })
        ]
    where
      of_and : (p q : Bool) → (p && q) ≡ true → p ≡ true
      of_and true q h = refl
      of_and false q h = h

  -- If no flush up to the epoch has lookups outstanding and the epoch has a flush, whose batches a
  -- `usize` counts, then `flush` does not panic: it sends buffers of this epoch only, leaves no
  -- buffer of this epoch at a tablet that may have a further batch in flight, adds the sent buffers
  -- to the batches of the flush, and loses and makes none: whatever they are weighed by, all buffers
  -- weigh the same before and after.
  pub flush_state-Sends :
      (s : State M C I) (f : FlushState C)
      → index s.flushes epoch ≡ ok f
      → f.batches_outstanding < 2 ^ 64
      → has_no_lookups epoch (flush_entries s.flushes) ≡ true
      → (s' : State M C I) × (sent : List (I × Buffer M)) × (flush_state config epoch s
          ≡ ok (s', sent))
        × All (IsOfEpoch config epoch) sent
        × All (IsUnready config epoch) s'.tablets
        × (index s'.flushes epoch
            ≡ ok
                (record f { batches_outstanding = (f.batches_outstanding + length sent) % 2 ^ 64 }))
        × ((weight : I × Buffer M → ℕ)
            → weigh_kept weight s'.tablets + weigh_sent weight sent ≡ weigh_kept weight s.tablets)
  unfolding flush_state
  flush_state-Sends s f h small landed =
      let r = flush_tablets-Sends s.tablets f s.flushes h small in
      (
        record s { tablets = r.result.kept; flushes = r.result.counted },
        r.result.sent,
        rw (landed, r.returns) refl,
        r.of_epoch,
        r.unready,
        r.counts,
        r.balanced,
      )
