-- ===== src/QueueMap/Insert.antt =====
-- `QueueMap::insert` and `QueueMap::push` (src/queue_map.rs) write one key of the map.
use kudu_rs.Base.{
  Bool-cases, List, Option, [], ap, arith, dec_lt, if◌then◌else◌, inl, inr, length, length-append,
  length-set, le→leb, le→ltb_false, ltb, lt→leb_false, lt→ltb, ne→==_false, none, ok, refl, set,
  some, subst, suc, sym, ℕ, ◌++◌, ◌+◌, ◌-◌, ◌<◌, ◌==◌, ◌^◌, ◌∙◌, ◌∷◌, ◌≡◌, ◌≤◌,
}
use kudu_rs.Base.Words.{add_usize}
use kudu_rs.QueueMap.{QueueMap, insert, is_some, push, push_back_empty, push_front_empty, push_with}
use kudu_rs.QueueMap.Slots.{
  count_some-push_back_empty, count_some-push_front_empty, count_some-set, find-push_back_empty,
  find-push_front_empty, find-singleton, length-push_back_empty, length-push_front_empty, place-lt,
  place-offset, slot-at, start-place,
}
use kudu_rs.QueueMap.View.{
  IsValid, at, count_some, count_some-append, count_some-le, find, find-append, find-set,
  find_after, find_before, key_offset-start, start,
}

module _ {ℓ} {T : Type ℓ} where
  -- What a write of `v` at key `k` does: it returns the old element, keeps the representation
  -- valid, and changes the map at that key only.
  pub record Wrote (s : QueueMap T) (k : ℕ) (v : T) (s' : QueueMap T) : Type ℓ where
    pub valid : IsValid s'
    pub next_key : s'.next_key ≡ (if ltb k s.next_key then s.next_key else suc k)
    pub changes : (j : ℕ) → at s' j ≡ (if k == j then some v else at s j)

  -- An append of one element at key `k`, behind slots of which none is at or after `k`.
  append-Wrote :
      (s : QueueMap T) (q : List (Option T)) (k : ℕ) (v : T)
      → IsValid s
      → suc k < 2 ^ 64
      → s.next_key ≤ k
      → length q ≡ length s.queue + (k - s.next_key)
      → count_some q ≡ count_some s.queue
      → ((j : ℕ) → find (start s) q j ≡ at s j)
      → Wrote s k v (record { queue = q ++ some v ∷ []; next_key = suc k; len = suc s.len })
  unfolding at
  append-Wrote s q k v w small later len count same = record {
    valid = record {
      bounded = omega (arith, length-append q (some v ∷ []));
      small = omega arith;
      counted = unfold count_some in omega (arith, w.counted, count_some-append q (some v ∷ []));
    };
    next_key = rw (le→ltb_false k s.next_key later);
    changes = λ j.
        ap (λ (t : ℕ). find t (q ++ some v ∷ []) j) begin
        ∙ find-append (start s) q (some v ∷ []) j
        ∙ split j;
  }
    where
      begin : suc k - length (q ++ some v ∷ []) ≡ start s
      begin = omega (arith, w.bounded, length-append q (some v ∷ []))

      last : start s + length q ≡ k
      last = omega (arith, w.bounded)

      none_here : (j : ℕ) → k ≤ j → at s j ≡ none
      none_here j h = find_after (start s) s.queue j (omega (arith, w.bounded))

      split :
          (j : ℕ)
          → (if ltb j (start s + length q)
              then find (start s) q j
              else find (start s + length q) (some v ∷ []) j)
            ≡ (if k == j then some v else at s j)
      split j = elim (dec_lt j k) [
        | yes p ↦ rw (last, lt→ltb j k p, ne→==_false k j (omega arith)) (same j)
        | no p ↦
            rw (last, le→ltb_false j k (omega arith), none_here j (omega arith))
              (find-singleton k v j)
      ]

  module _ (s : QueueMap T) (k : ℕ) (v : T) (w : IsValid s) where
    len-le : s.len ≤ length s.queue
    len-le = omega (arith, w.counted, count_some-le s.queue)

    insert_after :
        s.next_key ≤ k
        → suc k < 2 ^ 64
        → (s' : QueueMap T) × (insert s k v ≡ ok (s', at s k)) × Wrote s k v s'
    unfolding insert
    insert_after later small = (
      record {
        queue = push_back_empty (k - s.next_key) s.queue ++ some v ∷ [];
        next_key = suc k;
        len = suc s.len;
      },
      rw (le→leb _ _ later) (cc (unset, key_fits, len_fits)),
      append-Wrote s (push_back_empty (k - s.next_key) s.queue) k v w small later
          (length-push_back_empty (k - s.next_key) s.queue)
          (count_some-push_back_empty (k - s.next_key) s.queue)
          (λ j. unfold at in find-push_back_empty (k - s.next_key) (start s) s.queue j),
    )
      where
        unset : at s k ≡ none
        unset = unfold at in find_after (start s) s.queue k (omega (arith, w.bounded))

        key_fits : add_usize k 1 ≡ suc k
        key_fits = omega arith

        len_fits : add_usize s.len 1 ≡ suc s.len
        len_fits = omega (arith, len-le, w.bounded)

    insert_before :
        k < start s → (s' : QueueMap T) × (insert s k v ≡ ok (s', at s k)) × Wrote s k v s'
    unfolding insert
    insert_before sooner = (
      record s { queue = some v ∷ push_front_empty (start s - suc k) s.queue; len = suc s.len },
      rw (lt→leb_false s.next_key k (omega arith), key_offset-start s w, lt→ltb k (start s) sooner)
          (cc (unset, gap, len_fits)),
      record {
        valid = record {
          bounded = omega (arith, w.bounded, length-push_front_empty (start s - suc k) s.queue);
          small = w.small;
          counted =
              unfold count_some in
              omega (arith, w.counted, count_some-push_front_empty (start s - suc k) s.queue);
        };
        next_key = rw (lt→ltb k s.next_key (omega arith));
        changes = λ j.
            unfold at in
            ap (λ (t : ℕ). find t (some v ∷ push_front_empty n s.queue) j) first
            ∙ unfold find in ap (λ (t : Option T). if k == j then some v else t) (rest j);
      },
    )
      where
        unset : at s k ≡ none
        unset = unfold at in find_before (start s) s.queue k sooner

        gap : start s - add_usize k 1 ≡ start s - suc k
        gap = omega (arith, w.small)

        len_fits : add_usize s.len 1 ≡ suc s.len
        len_fits = omega (arith, len-le, w.bounded, w.small)

        n : ℕ
        n = start s - suc k

        first : s.next_key - suc (length (push_front_empty n s.queue)) ≡ k
        first = omega (arith, w.bounded, length-push_front_empty n s.queue)

        rest : (j : ℕ) → find (suc k) (push_front_empty n s.queue) j ≡ at s j
        rest j =
            unfold at in
            ap (λ (t : ℕ). find t (push_front_empty n s.queue) j) (omega arith)
            ∙ find-push_front_empty n (start s) s.queue j (omega arith)

    module _ (lo : start s ≤ k) (hi : k < s.next_key) where
      len-set :
          (if is_some (at s k) then s.len else add_usize s.len 1)
          ≡ count_some (set s.queue (k - start s) (some v))
      len-set = elim (Bool-cases (is_some (at s k))) [
        | inl e ↦ rw e (w.counted ∙ sym (rw e at counts))
        | inr e ↦ rw e (
            omega (
              arith,
              rw e at counts,
              w.counted,
              w.bounded,
              w.small,
              length-set s.queue (k - start s) (some v),
              count_some-le (set s.queue (k - start s) (some v)),
            ))
      ]
        where
          counts :
              count_some (set s.queue (k - start s) (some v))
              ≡ (if is_some (at s k) then count_some s.queue else count_some s.queue + 1)
          counts = count_some-set s.queue (k - start s) v (at s k) (slot-at s k w lo hi)

      insert_within : (s' : QueueMap T) × (insert s k v ≡ ok (s', at s k)) × Wrote s k v s'
      unfolding insert
      insert_within = (
        record s {
          queue = set s.queue (k - start s) (some v);
          len = if is_some (at s k) then s.len else add_usize s.len 1;
        },
        rw
            (
              lt→leb_false s.next_key k hi,
              key_offset-start s w,
              le→ltb_false k (start s) lo,
              (place-offset s k w lo hi),
              (slot-at s k w lo hi),
            )
            (cc (place-offset s k w lo hi)),
        record {
          valid = record {
            bounded = omega (arith, w.bounded, length-set s.queue (k - start s) (some v));
            small = w.small;
            counted = len-set;
          };
          next_key = rw (lt→ltb k s.next_key hi);
          changes = λ j.
              unfold at in
              ap (λ (t : ℕ). find t (set s.queue (k - start s) (some v)) j) same_start
              ∙ find-set (start s) s.queue (k - start s) (some v) j (place-lt s k w lo hi)
              ∙ ap (λ (t : ℕ). if t == j then some v else find (start s) s.queue j)
                  (start-place s k w lo hi);
        },
      )
        where
          same_start : s.next_key - length (set s.queue (k - start s) (some v)) ≡ start s
          same_start = omega (arith, length-set s.queue (k - start s) (some v))

  -- On a valid queue map, below the last `usize`, `insert` never panics: it returns the element that
  -- the key had, gives the key the new element, leaves every other key alone, and keeps the
  -- representation valid, whether the key is past the back, before the front or in between.
  pub insert-Wrote :
      (s : QueueMap T) (k : ℕ) (v : T)
      → IsValid s
      → suc k < 2 ^ 64
      → (s' : QueueMap T) × (insert s k v ≡ ok (s', at s k)) × Wrote s k v s'
  insert-Wrote s k v w small = elim (dec_lt k s.next_key) [
    | yes hi ↦ elim (dec_lt k (start s)) [
      | yes sooner ↦ insert_before s k v w sooner
      | no not_before ↦ insert_within s k v w (omega arith) hi
    ]
    | no not_within ↦ insert_after s k v w (omega arith) small
  ]

  -- On a valid queue map, with the next key below the last usize, push_with gives the next key,
  -- which had no element, the element that its function makes of that key, and push of that
  -- element does the same and returns the key.
  pub push-Wrote :
      (s : QueueMap T) (f : ℕ → T)
      → IsValid s
      → suc s.next_key < 2 ^ 64
      → Wrote s s.next_key (f s.next_key) (push_with s f)
        × (push s (f s.next_key) ≡ (push_with s f, s.next_key))
        × (at s s.next_key ≡ none)
  unfolding push push_with at
  push-Wrote s f w small = (
    subst (Wrote s s.next_key (f s.next_key)) same (
        append-Wrote s s.queue s.next_key (f s.next_key) w small (omega arith) (omega arith) refl
          (λ j. refl)),
    refl,
    unfold at in find_after (start s) s.queue s.next_key (omega (arith, w.bounded)),
  )
    where
      same :
          record s {
            queue = s.queue ++ some (f s.next_key) ∷ [];
            next_key = suc s.next_key;
            len = suc s.len;
          }
          ≡ record s {
            queue = s.queue ++ some (f s.next_key) ∷ [];
            next_key = add_usize s.next_key 1;
            len = add_usize s.len 1;
          }
      same = λ i. record s {
        queue = s.queue ++ some (f s.next_key) ∷ [];
        next_key = key_fits i;
        len = len_fits i;
      }
        where
          key_fits : suc s.next_key ≡ add_usize s.next_key 1
          key_fits = omega arith

          len_fits : suc s.len ≡ add_usize s.len 1
          len_fits = omega (arith, w.counted, w.bounded, w.small, count_some-le s.queue)
