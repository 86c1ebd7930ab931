-- ===== src/QueueMap/Calls.antt =====
-- A `QueueMap` (src/queue_map.rs) against a dictionary: no sequence of calls of `insert`, `remove`
-- and `push` tells them apart.
use kudu_rs.Base.{
  List, Option, Outcome, [], ap, ap₂, arith, if◌then◌else◌, le→ltb_false, ltb, none, ok, refl, some,
  suc, ℕ, ◌<◌, ◌==◌, ◌>>=◌, ◌^◌, ◌∙◌, ◌∷◌, ◌≡◌,
}
use kudu_rs.QueueMap.{QueueMap, insert, push, push_with, remove}
use kudu_rs.QueueMap.Insert.{insert-Wrote, push-Wrote}
use kudu_rs.QueueMap.Remove.{remove-Cleared}
use kudu_rs.QueueMap.View.{IsValid, at}

pub data Call {ℓ} (T : Type ℓ) : Type ℓ where
  insert_at : ℕ → T → Call T
  remove_at : ℕ → Call T
  push_back : T → Call T

-- `insert` and `remove` answer with the element that the key had, `push` with the new key.
pub data Reply {ℓ} (T : Type ℓ) : Type ℓ where
  element : Option T → Reply T
  new_key : ℕ → Reply T

pub record Dict {ℓ} (T : Type ℓ) : Type ℓ where
  pub holds : ℕ → Option T
  pub next : ℕ

module _ {ℓ} {T : Type ℓ} where
  abbrev update : (ℕ → Option T) → ℕ → Option T → ℕ → Option T
  update m k e j = if k == j then e else m j

  unfoldable pub apply : QueueMap T → Call T → Outcome (QueueMap T × Reply T)
  apply s (insert_at k v) = do (s', e) ← insert s k v; ok (s', element e)
  apply s (remove_at k) = do (s', e) ← remove s k; ok (s', element e)
  apply s (push_back v) = let (s', k) = push s v in ok (s', new_key k)

  unfoldable pub apply_dict : Dict T → Call T → Dict T × Reply T
  apply_dict d (insert_at k v) = (
    record { holds = update d.holds k (some v); next = if ltb k d.next then d.next else suc k },
    element (d.holds k),
  )
  apply_dict d (remove_at k) = (record d { holds = update d.holds k none }, element (d.holds k))
  apply_dict d (push_back v) =
      (record { holds = update d.holds d.next (some v); next = suc d.next }, new_key d.next)

  unfoldable pub run : QueueMap T → List (Call T) → Outcome (QueueMap T × List (Reply T))
  run s [] = ok (s, [])
  run s (c ∷ cs) = do (s', r) ← apply s c; (s'', rs) ← run s' cs; ok (s'', r ∷ rs)

  unfoldable pub run_dict : Dict T → List (Call T) → Dict T × List (Reply T)
  run_dict d [] = (d, [])
  run_dict d (c ∷ cs) =
      let (d', r) = apply_dict d c in let (d'', rs) = run_dict d' cs in (d'', r ∷ rs)

  -- No key of the calls is the last `usize`.
  abbrev pub Fits : Dict T → Call T → Type 0
  Fits d (insert_at k v) = suc k < 2 ^ 64
  Fits d (remove_at k) = Unit
  Fits d (push_back v) = suc d.next < 2 ^ 64

  abbrev pub AllFit : Dict T → List (Call T) → Type 0
  AllFit d [] = Unit
  AllFit d (c ∷ cs) = Fits d c × AllFit (apply_dict d c).0 cs

  pub record Tracks (s : QueueMap T) (d : Dict T) : Type ℓ where
    pub valid : IsValid s
    pub next_key : s.next_key ≡ d.next
    pub same : (k : ℕ) → at s k ≡ d.holds k

  apply-Tracks :
      (c : Call T) (s : QueueMap T) (d : Dict T)
      → Tracks s d
      → Fits d c
      → (s' : QueueMap T) × (apply s c ≡ ok (s', (apply_dict d c).1)) × Tracks s' (apply_dict d c).0
  unfolding apply apply_dict
  apply-Tracks (insert_at k v) s d t f =
      let (s', done, w) = insert-Wrote s k v t.valid f in
      (
        s',
        rw (done, t.same k),
        record {
          valid = w.valid;
          next_key = w.next_key ∙ ap (λ (n : ℕ). if ltb k n then n else suc k) t.next_key;
          same = λ j. w.changes j ∙ ap (λ (e : Option T). if k == j then some v else e) (t.same j);
        },
      )
  apply-Tracks (remove_at k) s d t f =
      let (s', done, c) = remove-Cleared s k t.valid in
      (
        s',
        rw (done, t.same k),
        record {
          valid = c.valid;
          next_key = c.next_key ∙ t.next_key;
          same = λ j. c.changes j ∙ ap (λ (e : Option T). if k == j then none else e) (t.same j);
        },
      )
  apply-Tracks (push_back v) s d t f =
      let (w, done, unset) = push-Wrote s (λ k. v) t.valid (rw t.next_key f) in
      (
        push_with s (λ k. v),
        rw (done, t.next_key),
        record {
          valid = w.valid;
          next_key =
              w.next_key
              ∙ rw (le→ltb_false s.next_key s.next_key (omega arith)) (ap suc t.next_key);
          same = λ j.
              w.changes j
              ∙ ap₂ (λ (n : ℕ) (e : Option T). if n == j then some v else e) t.next_key (t.same j);
        },
      )

  -- Any sequence of `insert`, `remove` and `push` on a queue map that tracks a dictionary, with keys
  -- below the last `usize`, ends without a panic, answers every call as the dictionary does, and
  -- leaves a valid queue map that tracks the dictionary's end.
  pub run-Tracks :
      (cs : List (Call T)) (s : QueueMap T) (d : Dict T)
      → Tracks s d
      → AllFit d cs
      → (s' : QueueMap T) × (run s cs ≡ ok (s', (run_dict d cs).1)) × Tracks s' (run_dict d cs).0
  unfolding run run_dict
  run-Tracks [] s d t f = (s, refl, t)
  run-Tracks (c ∷ cs) s d t f =
      let (s', done, t') = apply-Tracks c s d t f.0 in
      let (s'', more, t'') = run-Tracks cs s' (apply_dict d c).0 t' f.1 in
      (s'', rw (done, more), t'')
