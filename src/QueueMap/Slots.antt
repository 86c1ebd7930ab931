-- ===== src/QueueMap/Slots.antt =====
-- The slots that the two loops of `QueueMap::insert` (src/queue_map.rs) add hold no element, and a
-- write into a slot counts it once.
use kudu_rs.Base.{
  List, Option, [], ap, arith, get_elem?, if◌then◌else◌, length, length-append, none, refl, set,
  some, suc, zero, ℕ, ◌++◌, ◌+◌, ◌-◌, ◌<◌, ◌==◌, ◌∙◌, ◌∷◌, ◌≡◌, ◌≤◌,
}
use kudu_rs.QueueMap.{QueueMap, is_some, offset, push_back_empty, push_front_empty}
use kudu_rs.QueueMap.View.{
  IsValid, at, count_some, count_some-append, find, find-append, find_after, find_before,
  get_elem?-find, start,
}

module _ {ℓ} {T : Type ℓ} where
  pub find-push_back_empty :
      (n off : ℕ) (q : List (Option T)) (k : ℕ) → find off (push_back_empty n q) k ≡ find off q k
  unfolding push_back_empty
  find-push_back_empty zero off q k = refl
  find-push_back_empty (suc n) off q k = find-push_back_empty n off (q ++ none ∷ []) k ∙ more
    where
      more : find off (q ++ none ∷ []) k ≡ find off q k
      more = unfold find in ground (arith, find-append off q (none ∷ []) k, find_after off q k)

  pub length-push_back_empty :
      (n : ℕ) (q : List (Option T)) → length (push_back_empty n q) ≡ length q + n
  unfolding push_back_empty
  length-push_back_empty zero q = omega arith
  length-push_back_empty (suc n) q =
      omega (arith, length-push_back_empty n (q ++ none ∷ []), length-append q (none ∷ []))

  pub count_some-push_back_empty :
      (n : ℕ) (q : List (Option T)) → count_some (push_back_empty n q) ≡ count_some q
  unfolding push_back_empty count_some
  count_some-push_back_empty zero q = refl
  count_some-push_back_empty (suc n) q =
      omega (arith, count_some-push_back_empty n (q ++ none ∷ []), count_some-append q (none ∷ []))

  pub find-push_front_empty :
      (n off : ℕ) (q : List (Option T)) (k : ℕ)
      → n ≤ off
      → find (off - n) (push_front_empty n q) k ≡ find off q k
  unfolding push_front_empty
  find-push_front_empty zero off q k h = ap (λ (t : ℕ). find t q k) (omega arith)
  find-push_front_empty (suc n) zero q k h = absurd (omega arith)
  find-push_front_empty (suc n) (suc off) q k h =
      ap (λ (t : ℕ). find t (push_front_empty n (none ∷ q)) k) (omega arith)
      ∙ find-push_front_empty n off (none ∷ q) k (omega arith)
      ∙ unfold find in ground (arith, find_before (suc off) q k)

  pub length-push_front_empty :
      (n : ℕ) (q : List (Option T)) → length (push_front_empty n q) ≡ length q + n
  unfolding push_front_empty
  length-push_front_empty zero q = omega arith
  length-push_front_empty (suc n) q = omega (arith, length-push_front_empty n (none ∷ q))

  pub count_some-push_front_empty :
      (n : ℕ) (q : List (Option T)) → count_some (push_front_empty n q) ≡ count_some q
  unfolding push_front_empty count_some
  count_some-push_front_empty zero q = refl
  count_some-push_front_empty (suc n) q = count_some-push_front_empty n (none ∷ q)

  pub count_some-set :
      (q : List (Option T)) (i : ℕ) (v : T) (e : Option T)
      → get_elem? q i ≡ some e
      → count_some (set q i (some v)) ≡ (if is_some e then count_some q else count_some q + 1)
  unfolding count_some
  count_some-set [] i v e h = cc
  count_some-set (none ∷ q) zero v e h = ground arith
  count_some-set (some x ∷ q) zero v e h = ground arith
  count_some-set (none ∷ q) (suc i) v e h = count_some-set q i v e h
  count_some-set (some x ∷ q) (suc i) v e h = ground (arith, count_some-set q i v e h)

  pub find-singleton :
      (k : ℕ) (v : T) (j : ℕ) → find k (some v ∷ []) j ≡ (if k == j then some v else none)
  unfolding find
  find-singleton k v j = refl

  -- The slot of a key inside the queue.
  module _ (s : QueueMap T) (k : ℕ) (w : IsValid s) (lo : start s ≤ k) (hi : k < s.next_key) where
    abbrev pub place : ℕ
    place = k - start s

    pub place-offset : offset s k ≡ place
    unfolding offset
    place-offset = omega (arith, w.bounded, w.small)

    pub start-place : start s + place ≡ k
    start-place = omega arith

    pub place-lt : place < length s.queue
    place-lt = omega (arith, w.bounded)

    pub slot-at : get_elem? s.queue place ≡ some (at s k)
    unfolding at
    slot-at =
        get_elem?-find (start s) s.queue place place-lt
        ∙ ap (λ (t : ℕ). some (find (start s) s.queue t)) start-place
