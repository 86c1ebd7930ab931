-- ===== src/QueueMap/Pop.antt =====
-- `QueueMap::pop` (src/queue_map.rs): it takes the element with the least key, where the front slot
-- is not empty, and what keeps the front slot so.
use kudu_rs.Base.{
  ==_refl, Bool-cases, List, Option, Option-cases, Outcome, [], arith, err, get_elem?,
  if◌then◌else◌, inl, inr, leb, length, le→leb, ltb, ne→==_false, none, ok, panic, refl, set, some,
  subst, suc, sym, zero, ℕ, ℕ_discrete, ◌++◌, ◌-◌, ◌<◌, ◌==◌, ◌>>=◌, ◌∷◌, ◌≡◌, ◌≢◌, ◌≤◌, ◌⊎◌,
}
use kudu_rs.Base.Words.{sub_usize}
use kudu_rs.QueueMap.{QueueMap, insert, key_offset, offset, pop, push_back_empty, trim_front}
use kudu_rs.QueueMap.Remove.{Cleared, trim-Cleared}
use kudu_rs.QueueMap.View.{
  IsTrimmed, IsValid, at, count_some, count_some-le, find, find_before, key_offset-start, start,
  trim_front-IsTrimmed,
}

module _ {ℓ} {T : Type ℓ} where
  -- How `pop` ends where it does not panic.
  pub data Popped (s : QueueMap T) : Outcome (QueueMap T × Option (ℕ × T)) → Type ℓ where
    empty : ((j : ℕ) → at s j ≡ none) → Popped s (ok (s, none))
    front :
        (k : ℕ) (v : T) (s' : QueueMap T)
        → at s k ≡ some v
        → ((j : ℕ) → j < k → at s j ≡ none)
        → Cleared s k s'
        → IsTrimmed s'.queue
        → Popped s (ok (s', some (k, v)))

  pop-Popped_from :
      (q : List (Option T)) (n l : ℕ)
      → let s : QueueMap T = record { queue = q; next_key = n; len = l } in
        IsValid s → IsTrimmed q → Popped s (pop s)
  unfolding pop
  pop-Popped_from [] n l w t = empty (λ j. unfold at find in refl)
  pop-Popped_from (none ∷ q) n l w t = absurd t
  pop-Popped_from (some v ∷ q) n l w t =
      subst (λ k. Popped s (ok (s', some (k, v)))) (sym (key_offset-start s w))
        (front (start s) v s' (unfold at find in rw ==_refl)
          (λ j h. unfold at in find_before (start s) s.queue j h)
          (trim-Cleared s q (start s) (sub_usize l 1) w fits count rest) (trim_front-IsTrimmed q))
    where
      s : QueueMap T
      s = record { queue = some v ∷ q; next_key = n; len = l }

      s' : QueueMap T
      s' = record s { queue = trim_front q; len = sub_usize l 1 }

      fits : length q ≤ n
      fits = omega (arith, w.bounded)

      count : sub_usize l 1 ≡ count_some q
      count = unfold count_some in omega (arith, w.bounded, w.small, w.counted, count_some-le q)

      next_start : n - length q ≡ suc (start s)
      next_start = omega (arith, w.bounded)

      rest : (j : ℕ) → find (n - length q) q j ≡ (if start s == j then none else at s j)
      rest j = elim (ℕ_discrete (start s) j) [
        | yes e ↦
            rw (next_start, ← e, ==_refl (start s))
              (find_before (suc (start s)) q (start s) (omega arith))
        | no ne ↦
            rw (next_start, ne→==_false (start s) j ne)
              (unfold at find in rw (ne→==_false (start s) j ne))
      ]

  -- On a valid queue map whose front slot is not empty, `pop` never panics: if the map is empty it
  -- returns nothing and changes nothing; otherwise it returns the least key that has an element with
  -- that element, clears this key and no other, and leaves the front slot filled.
  pub pop-Popped : (s : QueueMap T) → IsValid s → IsTrimmed s.queue → Popped s (pop s)
  pop-Popped s w t = pop-Popped_from s.queue s.next_key s.len w t

  push_back_empty-cons :
      (n : ℕ) (e : Option T) (q : List (Option T))
      → push_back_empty n (e ∷ q) ≡ e ∷ push_back_empty n q
  unfolding push_back_empty
  push_back_empty-cons zero e q = refl
  push_back_empty-cons (suc n) e q = push_back_empty-cons n e (q ++ none ∷ [])

  -- After an insert past the next key into a queue without slots the front slot is empty, and pop
  -- panics.
  pub pop-insert_sparse :
      (s : QueueMap T) (k : ℕ) (v : T)
      → s.queue ≡ []
      → s.next_key < k
      → (insert s k v >>= λ r. pop r.0) ≡ panic
  unfolding insert pop
  pop-insert_sparse s k v e h = rw (le→leb s.next_key k (omega arith)) (rw (gap, e, first))
    where
      m : ℕ
      m = k - s.next_key - 1

      gap : k - s.next_key ≡ suc m
      gap = omega arith

      first : push_back_empty {T = T} (suc m) [] ≡ none ∷ push_back_empty m []
      first = unfold push_back_empty in push_back_empty-cons m none []

  push_back_empty-IsTrimmed :
      (n : ℕ) (q : List (Option T)) (v : T)
      → IsTrimmed q
      → (n ≡ 0) ⊎ (q ≢ [])
      → IsTrimmed (push_back_empty n q ++ some v ∷ [])
  push_back_empty-IsTrimmed n [] v t (inl e) = unfold push_back_empty in rw e tt
  push_back_empty-IsTrimmed n [] v t (inr ne) = absurd (ne refl)
  push_back_empty-IsTrimmed n (none ∷ q) v t c = absurd t
  push_back_empty-IsTrimmed n (some x ∷ q) v t c = rw push_back_empty-cons tt

  set-IsTrimmed : (q : List (Option T)) (i : ℕ) (v : T) → IsTrimmed q → IsTrimmed (set q i (some v))
  set-IsTrimmed [] i v t = tt
  set-IsTrimmed (none ∷ q) i v t = absurd t
  set-IsTrimmed (some x ∷ q) zero v t = tt
  set-IsTrimmed (some x ∷ q) (suc i) v t = tt

  abbrev LeavesTrimmed : Outcome (QueueMap T × Option T) → Type 0
  LeavesTrimmed (ok r) = IsTrimmed r.0.queue
  LeavesTrimmed (err e) = Unit
  LeavesTrimmed panic = Unit

  insert-LeavesTrimmed :
      (s : QueueMap T) (k : ℕ) (v : T)
      → IsTrimmed s.queue
      → (k ≤ s.next_key) ⊎ (s.queue ≢ [])
      → LeavesTrimmed (insert s k v)
  unfolding insert
  insert-LeavesTrimmed s k v t c = elim (Bool-cases (leb s.next_key k)) [
    | inl past ↦ rw past (push_back_empty-IsTrimmed (k - s.next_key) s.queue v t (adjacent c))
    | inr before ↦ elim (Bool-cases (ltb k (key_offset s))) [
      | inl sooner ↦ rw (before, sooner) tt
      | inr within ↦ elim (Option-cases (get_elem? s.queue (offset s k))) [
        | inl gone ↦ rw (before, within, gone) tt
        | inr (e, here) ↦ rw (before, within, here) (set-IsTrimmed s.queue (offset s k) v t)
      ]
    ]
  ]
    where
      adjacent : (k ≤ s.next_key) ⊎ (s.queue ≢ []) → (k - s.next_key ≡ 0) ⊎ (s.queue ≢ [])
      adjacent (inl h) = inl (omega arith)
      adjacent (inr h) = inr h

  -- An insert that succeeds, at a key that is not past the next key or into a queue that has
  -- slots, leaves a filled front slot filled.
  pub insert-IsTrimmed :
      (s s' : QueueMap T) (k : ℕ) (v : T) (r : Option T)
      → IsTrimmed s.queue
      → (k ≤ s.next_key) ⊎ (s.queue ≢ [])
      → insert s k v ≡ ok (s', r)
      → IsTrimmed s'.queue
  insert-IsTrimmed s s' k v r t c e = subst LeavesTrimmed e (insert-LeavesTrimmed s k v t c)
