-- ===== src/QueueMap/Remove.antt =====
-- `QueueMap::remove`, `pop` and `index` (src/queue_map.rs): they read or clear one key of the map.
use kudu_rs.Base.{
  ==_refl, Bool-cases, List, Option, Outcome, [], ap, arith, dec_lt, get_elem?, get_elem?-none,
  if◌then◌else◌, inl, inr, length, length-set, le→leb, le→ltb_false, lt→leb_false, lt→ltb,
  ne→==_false, none, ok, panic, refl, set, some, suc, sym, zero, ℕ, ℕ_discrete, ◌+◌, ◌-◌, ◌<◌, ◌==◌,
  ◌∙◌, ◌∷◌, ◌≡◌, ◌≤◌,
}
use kudu_rs.Base.Words.{IsUsize, sub_usize}
use kudu_rs.QueueMap.{QueueMap, index, is_some, offset, remove, trim_front}
use kudu_rs.QueueMap.Slots.{place-lt, place-offset, slot-at, start-place}
use kudu_rs.QueueMap.View.{
  IsValid, at, count_some, count_some-le, count_some-trim_front, find, find-set, find-trim_front,
  find_after, find_before, key_offset-start, length-trim_front-le, start,
}

module _ {ℓ} {T : Type ℓ} where
  -- What clearing key `k` does: the representation stays valid, and only that key changes.
  pub record Cleared (s : QueueMap T) (k : ℕ) (s' : QueueMap T) : Type ℓ where
    pub valid : IsValid s'
    pub next_key : s'.next_key ≡ s.next_key
    pub changes : (j : ℕ) → at s' j ≡ (if k == j then none else at s j)

  count_some-clear :
      (q : List (Option T)) (i : ℕ) (e : Option T)
      → get_elem? q i ≡ some e
      → count_some q
        ≡ (if is_some e then count_some (set q i none) + 1 else count_some (set q i none))
  unfolding count_some
  count_some-clear [] i e h = cc
  count_some-clear (none ∷ q) zero e h = ground arith
  count_some-clear (some x ∷ q) zero e h = ground arith
  count_some-clear (none ∷ q) (suc i) e h = count_some-clear q i e h
  count_some-clear (some x ∷ q) (suc i) e h = ground (arith, count_some-clear q i e h)

  -- A trim of the slots keeps the map.
  pub trim-Cleared :
      (s : QueueMap T) (q : List (Option T)) (k n : ℕ)
      → IsValid s
      → length q ≤ s.next_key
      → n ≡ count_some q
      → ((j : ℕ) → find (s.next_key - length q) q j ≡ (if k == j then none else at s j))
      → Cleared s k (record s { queue = trim_front q; len = n })
  trim-Cleared s q k n w fits count same = record {
    valid = record {
      bounded = omega (arith, length-trim_front-le q);
      small = w.small;
      counted = count ∙ sym (count_some-trim_front q);
    };
    next_key = refl;
    changes = λ j. unfold at in find-trim_front s.next_key q j fits ∙ same j;
  }

  module _ (s : QueueMap T) (k : ℕ) (w : IsValid s) where
    -- A key outside the slots holds nothing, and clearing it changes nothing.
    outside-Cleared : at s k ≡ none → Cleared s k s
    outside-Cleared unset = record {
      valid = w;
      next_key = refl;
      changes = λ j. elim (ℕ_discrete k j) [
        | yes e ↦ rw (← e, ==_refl k) unset
        | no ne ↦ rw (ne→==_false k j ne)
      ];
    }

    remove_within :
        start s ≤ k
        → k < s.next_key
        → (s' : QueueMap T) × (remove s k ≡ ok (s', at s k)) × Cleared s k s'
    unfolding remove
    remove_within lo hi = (
      record s {
        queue = trim_front (set s.queue place none);
        len = if is_some (at s k) then sub_usize s.len 1 else s.len;
      },
      rw
          (
            lt→leb_false s.next_key k hi,
            key_offset-start s w,
            le→ltb_false k (start s) lo,
            place-offset s k w lo hi,
            slot-at s k w lo hi,
          )
          (cc (place-offset s k w lo hi)),
      trim-Cleared s (set s.queue place none) k _ w
          (omega (arith, w.bounded, length-set {A = Option T} s.queue place none)) count
          (λ j.
            ap (λ (t : ℕ). find t (set s.queue place none) j) same_start
            ∙ find-set (start s) s.queue place none j (place-lt s k w lo hi)
            ∙ unfold at in
              ap (λ (t : ℕ). if t == j then none else find (start s) s.queue j)
                (start-place s k w lo hi)),
    )
      where
        place : ℕ
        place = k - start s

        same_start : s.next_key - length (set s.queue place none) ≡ start s
        same_start = omega (arith, length-set {A = Option T} s.queue place none)

        counts : count_some s.queue ≡ (
            if is_some (at s k)
            then count_some (set s.queue place none) + 1
            else count_some (set s.queue place none))
        counts = count_some-clear s.queue place (at s k) (slot-at s k w lo hi)

        count :
            (if is_some (at s k) then sub_usize s.len 1 else s.len)
            ≡ count_some (set s.queue place none)
        count = elim (Bool-cases (is_some (at s k))) [
          | inl e ↦
              rw e (
                omega (arith, rw e at counts, w.counted, w.bounded, w.small, count_some-le s.queue))
          | inr e ↦ rw e (w.counted ∙ rw e at counts)
        ]

  -- On a valid queue map `remove` never panics: it returns the element that the key had, clears that
  -- key and no other, and keeps the next key and the representation's invariant.
  pub remove-Cleared :
      (s : QueueMap T) (k : ℕ)
      → IsValid s
      → (s' : QueueMap T) × (remove s k ≡ ok (s', at s k)) × Cleared s k s'
  unfolding remove
  remove-Cleared s k w = elim (dec_lt k s.next_key) [
    | yes hi ↦ elim (dec_lt k (start s)) [
      | yes sooner ↦
          let unset : at s k ≡ none = unfold at in find_before (start s) s.queue k sooner in
          (
            s,
            rw (
              lt→leb_false s.next_key k hi,
              key_offset-start s w,
              lt→ltb k (start s) sooner,
              unset,
            ),
            outside-Cleared s k w unset,
          )
      | no not_before ↦ remove_within s k w (omega arith) hi
    ]
    | no not_within ↦
        let unset : at s k ≡ none =
          unfold at in find_after (start s) s.queue k (omega (arith, w.bounded)) in
        (s, rw (le→leb s.next_key k (omega arith), unset), outside-Cleared s k w unset)
  ]

  -- On a valid queue map, at a key that is a usize, index returns the element that the key has,
  -- and panics if it has none.
  pub index-at :
      (s : QueueMap T) (k : ℕ)
      → IsValid s
      → IsUsize k
      → index s k ≡ elim (at s k) [ none ↦ panic | some v ↦ ok v ]
  unfolding index
  index-at s k w small = elim (dec_lt k s.next_key) [
    | yes hi ↦ elim (dec_lt k (start s)) [
      | yes sooner ↦
          outside (unfold offset in omega (arith, w.bounded, w.small))
            (unfold at in find_before (start s) s.queue k sooner)
      | no not_before ↦
          rw (place-offset s k w (omega arith) hi, slot-at s k w (omega arith) hi, index)
            (same (at s k))
    ]
    | no not_within ↦
        outside (unfold offset in omega (arith, w.bounded, w.small))
          (unfold at in find_after (start s) s.queue k (omega (arith, w.bounded)))
  ]
    where
      outside :
          length s.queue ≤ offset s k
          → at s k ≡ none
          → index s k ≡ elim (at s k) [ none ↦ panic | some v ↦ ok v ]
      outside far unset = rw (get_elem?-none s.queue (offset s k) far, index, unset)

      same :
          (e : Option T)
          → elim e as (λ x. Outcome T) [ none ↦ panic | some v ↦ ok v ]
            ≡ elim e as (λ x. Outcome T) [ none ↦ panic | some v ↦ ok v ]
      same e = refl
