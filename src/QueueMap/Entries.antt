-- ===== src/QueueMap/Entries.antt =====
-- The iterators of src/queue_map.rs: they yield the elements of the map in ascending order of keys.
use kudu_rs.Base.{
  ==_refl, List, Option, [], ap, arith, if◌then◌else◌, length, ne→==_false, none, refl, some, suc,
  sym, zero, ℕ, ℕ_discrete, ◌+◌, ◌<◌, ◌==◌, ◌^◌, ◌∙◌, ◌∷◌, ◌≡◌, ◌≤◌,
}
use kudu_rs.QueueMap.{QueueMap, collect, drain, iter, key_offset, next, next_from}
use kudu_rs.QueueMap.View.{IsValid, at, count_some, find, find_before, key_offset-start, start}

module _ {ℓ} {T : Type ℓ} where
  -- The elements of slots that begin at key `off`, with their keys.
  unfoldable pub entries : ℕ → List (Option T) → List (ℕ × T)
  entries off [] = []
  entries off (none ∷ q) = entries (suc off) q
  entries off (some v ∷ q) = (off, v) ∷ entries (suc off) q

  abbrev pub lookup : ℕ → List (ℕ × T) → Option T
  lookup k [] = none
  lookup k ((j, v) ∷ l) = if j == k then some v else lookup k l

  -- Every key is at least `lo`, and each is less than the next.
  abbrev pub IsAscending : ℕ → List (ℕ × T) → Type 0
  IsAscending lo [] = Unit
  IsAscending lo ((k, v) ∷ l) = (lo ≤ k) × IsAscending (suc k) l

  lookup-entries : (off : ℕ) (q : List (Option T)) (k : ℕ) → lookup k (entries off q) ≡ find off q k
  unfolding entries find
  lookup-entries off [] k = refl
  lookup-entries off (none ∷ q) k = elim (ℕ_discrete off k) [
    | yes e ↦
        rw (← e, ==_refl off)
          (lookup-entries (suc off) q off ∙ find_before (suc off) q off (omega arith))
    | no ne ↦ rw (ne→==_false off k ne) (lookup-entries (suc off) q k)
  ]
  lookup-entries off (some v ∷ q) k =
      ap (λ (t : Option T). if off == k then some v else t) (lookup-entries (suc off) q k)

  IsAscending-le : (lo hi : ℕ) (l : List (ℕ × T)) → lo ≤ hi → IsAscending hi l → IsAscending lo l
  IsAscending-le lo hi [] h a = tt
  IsAscending-le lo hi ((k, v) ∷ l) h a = (omega arith, a.1)

  entries-IsAscending : (off : ℕ) (q : List (Option T)) → IsAscending off (entries off q)
  unfolding entries
  entries-IsAscending off [] = tt
  entries-IsAscending off (none ∷ q) =
      IsAscending-le off (suc off) (entries (suc off) q) (omega arith)
        (entries-IsAscending (suc off) q)
  entries-IsAscending off (some v ∷ q) = (omega arith, entries-IsAscending (suc off) q)

  length-entries : (off : ℕ) (q : List (Option T)) → length (entries off q) ≡ count_some q
  unfolding entries count_some
  length-entries off [] = refl
  length-entries off (none ∷ q) = length-entries (suc off) q
  length-entries off (some v ∷ q) = ap suc (length-entries (suc off) q)

  collect-skip :
      (fuel key : ℕ) (q : List (Option T))
      → suc key < 2 ^ 64
      → collect (suc fuel) (record { key = key; itr = none ∷ q })
        ≡ collect (suc fuel) (record { key = suc key; itr = q })
  unfolding collect next next_from
  collect-skip fuel key q h =
      ap (λ (t : ℕ). collect (suc fuel) (record { key = t; itr = q })) (omega arith)

  collect-cons :
      (fuel key : ℕ) (v : T) (q : List (Option T))
      → suc key < 2 ^ 64
      → collect (suc fuel) (record { key = key; itr = some v ∷ q })
        ≡ (key, v) ∷ collect fuel (record { key = suc key; itr = q })
  unfolding collect next next_from
  collect-cons fuel key v q h =
      ap (λ (t : ℕ). (key, v) ∷ collect fuel (record { key = t; itr = q })) (omega arith)

  collect-entries :
      (fuel key : ℕ) (q : List (Option T))
      → length q < fuel
      → key + length q < 2 ^ 64
      → collect fuel (record { key = key; itr = q }) ≡ entries key q
  collect-entries zero key q h k = absurd (omega arith)
  collect-entries (suc fuel) key [] h k = unfold collect next next_from entries in refl
  collect-entries (suc fuel) key (none ∷ q) h k =
      collect-skip fuel key q (omega arith)
      ∙ collect-entries (suc fuel) (suc key) q (omega arith) (omega arith)
      ∙ unfold entries in refl
  collect-entries (suc fuel) key (some v ∷ q) h k =
      collect-cons fuel key v q (omega arith)
      ∙ ap (◌∷◌ (key, v)) (collect-entries fuel (suc key) q (omega arith) (omega arith))
      ∙ unfold entries in refl

  -- Collecting the iterator of a valid queue map, with fuel for one call of `next` more than it has
  -- slots, gives a list whose keys ascend, that holds exactly what the map holds, and that is as
  -- long as `len` says; draining gives the same list and leaves a valid map that holds nothing.
  pub collect-iter :
      (s : QueueMap T)
      → IsValid s
      → let l = collect (suc (length s.queue)) (iter s) in
        IsAscending (start s) l
        × ((k : ℕ) → lookup k l ≡ at s k)
        × (length l ≡ s.len)
        × (collect (suc (length s.queue)) (drain s).1 ≡ l)
        × IsValid (drain s).0
        × ((k : ℕ) → at (drain s).0 k ≡ none)
  unfolding iter drain at
  collect-iter s w = (
    rw listed (entries-IsAscending (start s) s.queue),
    λ k. rw listed (lookup-entries (start s) s.queue k),
    rw listed (length-entries (start s) s.queue ∙ sym w.counted),
    refl,
    record { bounded = omega arith; small = w.small; counted = unfold count_some in refl },
    λ k. unfold find in refl,
  )
    where
      listed :
          collect (suc (length s.queue)) (record { key = key_offset s; itr = s.queue })
          ≡ entries (start s) s.queue
      listed = rw (key_offset-start s w) (
          collect-entries (suc (length s.queue)) (start s) s.queue (omega arith)
            (omega (arith, w.bounded, w.small)))
