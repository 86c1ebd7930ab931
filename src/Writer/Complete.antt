-- ===== src/Writer/Complete.antt =====
-- The flushes that `batch_complete` of src/writer.rs completes.
use kudu_rs.Base.{
  Bool-cases, List, Option, Outcome, [], ap, arith, if◌then◌else◌, inl, inr, length, lt→ltb, map,
  ne→==_false, ok, refl, some, suc, zero, ℕ, ◌+◌, ◌<◌, ◌>>=◌, ◌^◌, ◌∙◌, ◌∷◌, ◌≡◌,
}
use kudu_rs.Base.Words.{sub_usize}
use kudu_rs.QueueMap.{QueueMap, front_key, index, is_empty, key_offset, offset, pop, trim_front}
use kudu_rs.Writer.{FlushState, unwrap_option}
use kudu_rs.Writer.Batches.{is_complete, take_complete}

module _ {C : Type 0} where
  -- The complete flushes at the front, of which the last flush is none, and those that are left.
  unfoldable pub split_complete : List (FlushState C) → List (FlushState C) × List (FlushState C)
  split_complete [] = ([], [])
  split_complete (f ∷ []) = ([], f ∷ [])
  split_complete (f ∷ g ∷ fs) =
      let r = split_complete (g ∷ fs) in if is_complete f then (f ∷ r.0, r.1) else ([], f ∷ g ∷ fs)

  -- The queue map of flushes of which the first has the key `k`.
  abbrev pub packed : ℕ → List (FlushState C) → QueueMap (FlushState C)
  packed k fs = record { queue = map some fs; next_key = k + length fs; len = length fs }

  length-slots : (fs : List (FlushState C)) → length (map some fs) ≡ length fs
  length-slots [] = refl
  length-slots (f ∷ fs) = ap suc (length-slots fs)

  index-packed :
      (k : ℕ) (f : FlushState C) (fs : List (FlushState C))
      → k + suc (length fs) < 2 ^ 64
      → index (packed k (f ∷ fs)) k ≡ ok f
  unfolding index offset
  index-packed k f fs small = rw (index, offset, front) refl
    where
      front : sub_usize (suc (length (map some fs))) (sub_usize (k + suc (length fs)) k) ≡ 0
      front = omega (arith, small, length-slots fs)

  pop-packed :
      (k : ℕ) (f g : FlushState C) (fs : List (FlushState C))
      → k + suc (suc (length fs)) < 2 ^ 64
      → pop (packed k (f ∷ g ∷ fs)) ≡ ok (packed (suc k) (g ∷ fs), some (k, f))
  unfolding pop key_offset trim_front
  pop-packed k f g fs small = λ i.
      ok (record { queue = some g ∷ map some fs; next_key = key i; len = len i }, some (place i, f))
    where
      key : k + suc (suc (length fs)) ≡ suc k + suc (length fs)
      key = omega arith

      len : sub_usize (suc (suc (length fs))) 1 ≡ suc (length fs)
      len = omega (arith, small)

      place : sub_usize (k + suc (suc (length fs))) (suc (suc (length (map some fs)))) ≡ k
      place = omega (arith, small, length-slots fs)

  front_key-packed :
      (k : ℕ) (f : FlushState C) (fs : List (FlushState C))
      → k + suc (length fs) < 2 ^ 64
      → front_key (packed k (f ∷ fs)) ≡ some k
  unfolding front_key is_empty key_offset
  front_key-packed k f fs small =
      rw (ne→==_false (suc (length fs)) 0 (λ e. omega (arith, e)))
        (ap some (omega (arith, small, length-slots fs)))

  -- A round of the loop from what `pop` returned.
  abbrev after_pop :
      ℕ
      → QueueMap (FlushState C) × Option (ℕ × FlushState C)
      → Outcome (List (FlushState C) × QueueMap (FlushState C))
  after_pop fuel r = unwrap_option r.1 >>= λ popped. unwrap_option (front_key r.0) >>= λ oldest.
      take_complete fuel oldest r.0 >>= λ rest. ok (popped.1 ∷ rest.0, rest.1)

  -- On flushes of which none is missing, as `push` and `pop` leave them, whose keys are below the
  -- last `usize`, the loop of `batch_complete`, from the oldest flush and with a unit of fuel for each
  -- flush, does not panic: it takes the complete flushes at the front, the newest flush always stays,
  -- and the flushes that are left keep their keys.
  pub take_complete-split_complete :
      (fuel k : ℕ) (f : FlushState C) (fs : List (FlushState C))
      → length fs < fuel
      → k + suc (length fs) < 2 ^ 64
      → let r = split_complete (f ∷ fs) in
        take_complete fuel k (packed k (f ∷ fs)) ≡ ok (r.0, packed (k + length r.0) r.1)
  unfolding take_complete split_complete unwrap_option
  take_complete-split_complete zero k f fs enough small = absurd (omega arith)
  take_complete-split_complete (suc fuel) k f [] enough small =
      rw (index-packed k f [] small) (ap (λ (n : ℕ). ok ([], packed n (f ∷ []))) (omega arith))
  take_complete-split_complete (suc fuel) k f (g ∷ fs) enough small =
      elim (Bool-cases (is_complete f)) [
        | inl complete ↦
            let rest = take_complete-split_complete fuel (suc k) g fs (omega arith) (omega arith) in
            rw
              (
                index-packed k f (g ∷ fs) small,
                lt→ltb 1 (suc (suc (length fs))) (omega arith),
                complete,
              )
              (ap
                  (λ (m : Outcome (QueueMap (FlushState C) × Option (ℕ × FlushState C))).
                    m >>= after_pop fuel)
                  (pop-packed k f g fs small)
                ∙ rw (front_key-packed (suc k) g fs (omega arith), rest)
                    (ap
                      (λ (n : ℕ).
                        ok (f ∷ (split_complete (g ∷ fs)).0, packed n (split_complete (g ∷ fs)).1))
                      (omega arith)))
        | inr waits ↦
            rw
              (
                index-packed k f (g ∷ fs) small,
                lt→ltb 1 (suc (suc (length fs))) (omega arith),
                waits,
              )
              (ap (λ (n : ℕ). ok ([], packed n (f ∷ g ∷ fs))) (omega arith))
      ]
