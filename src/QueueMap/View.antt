-- ===== src/QueueMap/View.antt =====
-- What a `QueueMap` (src/queue_map.rs) holds, as a map from keys to elements, and the invariant of
-- its representation.
use kudu_rs.Base.{
  List, Option, [], ap, arith, get_elem?, if◌then◌else◌, length, ltb, none, refl, set, some, suc,
  zero, ℕ, ◌++◌, ◌+◌, ◌-◌, ◌<◌, ◌==◌, ◌∙◌, ◌∷◌, ◌≡◌, ◌≤◌,
}
use kudu_rs.Base.Words.{IsUsize}
use kudu_rs.QueueMap.{QueueMap, key_offset, trim_front}

module _ {ℓ} {T : Type ℓ} where
  -- The element at key `k` of slots that begin at key `off`.
  unfoldable pub find : ℕ → List (Option T) → ℕ → Option T
  find off [] k = none
  find off (e ∷ q) k = if off == k then e else find (suc off) q k

  unfoldable pub count_some : List (Option T) → ℕ
  count_some [] = 0
  count_some (none ∷ q) = count_some q
  count_some (some v ∷ q) = suc (count_some q)

  abbrev pub start : QueueMap T → ℕ
  start s = s.next_key - length s.queue

  -- The element at a key.
  unfoldable pub at : QueueMap T → ℕ → Option T
  at s k = find (start s) s.queue k

  pub record IsValid (s : QueueMap T) : Type 0 where
    pub bounded : length s.queue ≤ s.next_key
    pub small : IsUsize s.next_key
    pub counted : s.len ≡ count_some s.queue

  pub key_offset-start : (s : QueueMap T) → IsValid s → key_offset s ≡ start s
  unfolding key_offset
  key_offset-start s v = omega arith

  pub find_before : (off : ℕ) (q : List (Option T)) (k : ℕ) → k < off → find off q k ≡ none
  unfolding find
  find_before off [] k h = refl
  find_before off (e ∷ q) k h = ground (arith, find_before (suc off) q k (omega arith))

  pub find_after :
      (off : ℕ) (q : List (Option T)) (k : ℕ) → off + length q ≤ k → find off q k ≡ none
  unfolding find
  find_after off [] k h = refl
  find_after off (e ∷ q) k h = ground (arith, find_after (suc off) q k (omega arith))

  pub find-append :
      (off : ℕ) (q r : List (Option T)) (k : ℕ)
      → find off (q ++ r) k
        ≡ (if ltb k (off + length q) then find off q k else find (off + length q) r k)
  unfolding find
  find-append off [] r k =
      ground (arith, find_before off r k, ap (λ (t : ℕ). find t r k) (plus_zero off))
    where
      plus_zero : (n : ℕ) → n + 0 ≡ n
      plus_zero n = omega arith
  find-append off (e ∷ q) r k =
      ground (arith, find-append (suc off) q r k, ap (λ (t : ℕ). find t r k) (shift off (length q)))
    where
      shift : (n m : ℕ) → suc n + m ≡ n + suc m
      shift n m = omega arith

  pub get_elem?-find :
      (off : ℕ) (q : List (Option T)) (i : ℕ)
      → i < length q
      → get_elem? q i ≡ some (find off q (off + i))
  unfolding find
  get_elem?-find off [] i h = absurd (omega arith)
  get_elem?-find off (e ∷ q) zero h = ground arith
  get_elem?-find off (e ∷ q) (suc i) h = ground (
    arith,
    get_elem?-find (suc off) q i (omega arith),
    ap (λ (t : ℕ). find (suc off) q t) (shift off i),
  )
    where
      shift : (n m : ℕ) → suc n + m ≡ n + suc m
      shift n m = omega arith

  pub find-set :
      (off : ℕ) (q : List (Option T)) (i : ℕ) (e : Option T) (k : ℕ)
      → i < length q
      → find off (set q i e) k ≡ (if off + i == k then e else find off q k)
  unfolding find
  find-set off [] i e k h = absurd (omega arith)
  find-set off (x ∷ q) zero e k h = ground arith
  find-set off (x ∷ q) (suc i) e k h = ground (arith, find-set (suc off) q i e k (omega arith))

  pub length-trim_front-le : (q : List (Option T)) → length (trim_front q) ≤ length q
  unfolding trim_front
  length-trim_front-le [] = omega arith
  length-trim_front-le (none ∷ q) = omega (arith, length-trim_front-le q)
  length-trim_front-le (some v ∷ q) = omega arith

  -- Trimming moves the start up, and loses no element.
  pub find-trim_front :
      (n : ℕ) (q : List (Option T)) (k : ℕ)
      → length q ≤ n
      → find (n - length (trim_front q)) (trim_front q) k ≡ find (n - length q) q k
  unfolding find trim_front
  find-trim_front n [] k h = refl
  find-trim_front n (some v ∷ q) k h = refl
  find-trim_front n (none ∷ q) k h = find-trim_front n q k (omega arith) ∙ first
    where
      first : find (n - length q) q k ≡ find (n - length (none ∷ q)) (none ∷ q) k
      first = ground (
        arith,
        find_before (n - length q) q k,
        ap (λ (t : ℕ). find t q k) (step n (length q) (omega arith)),
      )
        where
          step : (a b : ℕ) → suc b ≤ a → suc (a - suc b) ≡ a - b
          step a b p = omega arith

  pub count_some-trim_front : (q : List (Option T)) → count_some (trim_front q) ≡ count_some q
  unfolding count_some trim_front
  count_some-trim_front [] = refl
  count_some-trim_front (none ∷ q) = count_some-trim_front q
  count_some-trim_front (some v ∷ q) = refl

  pub count_some-append :
      (q r : List (Option T)) → count_some (q ++ r) ≡ count_some q + count_some r
  unfolding count_some
  count_some-append [] r = omega arith
  count_some-append (none ∷ q) r = count_some-append q r
  count_some-append (some v ∷ q) r = omega (arith, count_some-append q r)

  pub count_some-le : (q : List (Option T)) → count_some q ≤ length q
  unfolding count_some
  count_some-le [] = omega arith
  count_some-le (none ∷ q) = omega (arith, count_some-le q)
  count_some-le (some v ∷ q) = omega (arith, count_some-le q)

  -- The front slot holds an element, or there is no slot.
  abbrev pub IsTrimmed : List (Option T) → Type 0
  IsTrimmed [] = Unit
  IsTrimmed (none ∷ q) = ⊥
  IsTrimmed (some v ∷ q) = Unit

  pub trim_front-IsTrimmed : (q : List (Option T)) → IsTrimmed (trim_front q)
  unfolding trim_front
  trim_front-IsTrimmed [] = tt
  trim_front-IsTrimmed (none ∷ q) = trim_front-IsTrimmed q
  trim_front-IsTrimmed (some v ∷ q) = tt
