-- ===== src/Base/Search.antt =====
-- `binary_search_by` of slices, by which src/meta_cache.rs finds entries.
use Prim.Native.Nat.{ℕ, zero, suc, ◌+◌, ◌-◌, ◌/◌, ◌<◌, ◌≤◌, Ordering}
use mathlib.Core.Path.{◌≡◌, refl, subst}
use mathlib.Core.List.{List}
use mathlib.Core.Option.{none, some}
use native.Mathlib.Decide.{dec_lt}
use native.Mathlib.Omega.{arith}
use kudu_rs.Base.Lists.{length, get_elem?, get_elem?-inside, All}
use kudu_rs.Base.Tests.{ltb, if◌then◌else◌}
use mathlib.Core.Option.{some-injective}
use mathlib.Core.List.{[], ◌∷◌}

-- `Ok` of the index of an element that the test calls equal, or `Err` of the place for one.
pub data Found : Type 0 where
  at_index : ℕ → Found
  missing : ℕ → Found

module _ {ℓ} {A : Type ℓ} (test : A → Ordering) (xs : List A) where
  -- The slice that is left starts at `base` and has `size` elements; the fuel is never used up.
  unfoldable pub search_loop : ℕ → ℕ → ℕ → Found
  search_loop zero base size = missing base
  search_loop (suc fuel) base zero = missing base
  search_loop (suc fuel) base (suc n) = elim (get_elem? xs (base + suc n / 2)) [
    | none ↦ missing base
    | some x ↦ elim (test x) [
      | Ordering.lt ↦ search_loop fuel (base + suc n / 2 + 1) (n - suc n / 2)
      | Ordering.gt ↦ search_loop fuel base (suc n / 2)
      | Ordering.eq ↦ at_index (base + suc n / 2)
    ]
  ]

  unfoldable pub binary_search_by : Found
  unfolding search_loop
  binary_search_by = search_loop (suc (length xs)) 0 (length xs)

  -- The elements before `low` are less, those from there to `high` equal, and the others greater.
  pub record Splits (low high : ℕ) : Type ℓ where
    pub ordered : low ≤ high
    pub inside : high ≤ length xs
    pub before : (i : ℕ) (x : A) → get_elem? xs i ≡ some x → i < low → test x ≡ Ordering.lt
    pub between :
        (i : ℕ) (x : A) → get_elem? xs i ≡ some x → low ≤ i → i < high → test x ≡ Ordering.eq
    pub behind : (i : ℕ) (x : A) → get_elem? xs i ≡ some x → high ≤ i → test x ≡ Ordering.gt

  -- An index of an equal element, or the place between the less and the greater.
  abbrev pub Finds : ℕ → ℕ → Found → Type 0
  Finds low high (at_index i) = (low ≤ i) × (i < high)
  Finds low high (missing i) = (i ≡ low) × (low ≡ high)

  module _ (low high : ℕ) (splits : Splits low high) where
    search_loop-Finds :
        (fuel base size : ℕ)
        → size < fuel
        → base ≤ low
        → high ≤ base + size
        → base + size ≤ length xs
        → Finds low high (search_loop fuel base size)
    unfolding search_loop
    search_loop-Finds zero base size f b h l = absurd (omega arith)
    search_loop-Finds (suc fuel) base zero f b h l =
        (omega (arith, splits.ordered), omega (arith, splits.ordered))
    search_loop-Finds (suc fuel) base (suc n) f b h l =
        let (x, at) = get_elem?-inside xs (base + suc n / 2) (omega arith) in
        elim (dec_lt (base + suc n / 2) low) [
          | yes less ↦
              rw (search_loop, at, splits.before _ x at less)
                (search_loop-Finds fuel (base + suc n / 2 + 1) (n - suc n / 2) (omega arith)
                  (omega arith) (omega arith) (omega arith))
          | no not_less ↦ elim (dec_lt (base + suc n / 2) high) [
            | yes equal ↦
                rw (search_loop, at, splits.between _ x at (omega arith) equal)
                  (omega arith, omega arith)
            | no greater ↦
                rw (search_loop, at, splits.behind _ x at (omega arith))
                  (search_loop-Finds fuel base (suc n / 2) (omega arith) b (omega arith)
                    (omega arith))
          ]
        ]

    -- The search finds one of the equal elements, or, if there is none, their place.
    pub binary_search_by-Finds : Finds low high binary_search_by
    unfolding binary_search_by
    binary_search_by-Finds =
        search_loop-Finds (suc (length xs)) 0 (length xs) (omega arith) (omega arith)
          (omega (arith, splits.inside)) (omega arith)

-- A test that goes up along the list: less, then equal, then greater.
abbrev pub rank : Ordering → ℕ
rank Ordering.lt = 0
rank Ordering.eq = 1
rank Ordering.gt = 2

pub lt_of_rank : (o : Ordering) → rank o < 1 → o ≡ Ordering.lt
lt_of_rank Ordering.lt h = refl
lt_of_rank Ordering.eq h = absurd (omega arith)
lt_of_rank Ordering.gt h = absurd (omega arith)

pub eq_of_rank : (o : Ordering) → 1 ≤ rank o → rank o < 2 → o ≡ Ordering.eq
eq_of_rank Ordering.lt h k = absurd (omega arith)
eq_of_rank Ordering.eq h k = refl
eq_of_rank Ordering.gt h k = absurd (omega arith)

pub gt_of_rank : (o : Ordering) → 2 ≤ rank o → o ≡ Ordering.gt
gt_of_rank Ordering.lt h = absurd (omega arith)
gt_of_rank Ordering.eq h = absurd (omega arith)
gt_of_rank Ordering.gt h = refl

module _ {ℓ} {A : Type ℓ} where
  pub All-get {κ} :
      (P : A → Type κ) (xs : List A) (i : ℕ) (x : A) → get_elem? xs i ≡ some x → All P xs → P x
  All-get P [] i x at h = cc
  All-get P (y ∷ xs) zero x at h = subst P (some-injective y x at) h.0
  All-get P (y ∷ xs) (suc i) x at h = All-get P xs i x at h.1

module _ {ℓ} {A : Type ℓ} (test : A → Ordering) where
  abbrev pub IsMonotone : List A → Type 0
  IsMonotone [] = Unit {0}
  IsMonotone (x ∷ xs) = All (λ y. rank (test x) ≤ rank (test y)) xs × IsMonotone xs

  -- How many elements at the front have a rank below `r`.
  pub ranked_below : ℕ → List A → ℕ
  ranked_below r [] = 0
  ranked_below r (x ∷ xs) = if ltb (rank (test x)) r then suc (ranked_below r xs) else 0

  ranked_below-le : (r : ℕ) (xs : List A) → ranked_below r xs ≤ length xs
  unfolding ranked_below
  ranked_below-le r [] = omega arith
  ranked_below-le r (x ∷ xs) = ground (arith, ranked_below-le r xs)

  ranked_below_mono : (xs : List A) → ranked_below 1 xs ≤ ranked_below 2 xs
  unfolding ranked_below
  ranked_below_mono [] = omega arith
  ranked_below_mono (x ∷ xs) = ground (arith, ranked_below_mono xs)

  rank_inside :
      (r : ℕ) (xs : List A) (i : ℕ) (x : A)
      → get_elem? xs i ≡ some x
      → i < ranked_below r xs
      → rank (test x) < r
  unfolding ranked_below
  rank_inside r [] i x at h = cc
  rank_inside r (y ∷ xs) zero x at h =
      subst (λ (z : A). rank (test z) < r) (some-injective y x at) (ground arith)
  rank_inside r (y ∷ xs) (suc i) x at h = rank_inside r xs i x at (ground arith)

  rank_outside :
      (r : ℕ) (xs : List A) (i : ℕ) (x : A)
      → IsMonotone xs
      → get_elem? xs i ≡ some x
      → ranked_below r xs ≤ i
      → r ≤ rank (test x)
  unfolding ranked_below
  rank_outside r [] i x m at h = cc
  rank_outside r (y ∷ xs) zero x m at h =
      subst (λ (z : A). r ≤ rank (test z)) (some-injective y x at) (ground arith)
  rank_outside r (y ∷ xs) (suc i) x m at h = ground (
    arith,
    rank_outside r xs i x m.1 at,
    All-get (λ y'. rank (test y) ≤ rank (test y')) xs i x at m.0,
  )

  pub IsMonotone-Splits :
      (xs : List A) → IsMonotone xs → Splits test xs (ranked_below 1 xs) (ranked_below 2 xs)
  IsMonotone-Splits xs m = record {
    ordered = ranked_below_mono xs;
    inside = ranked_below-le 2 xs;
    before = λ i x at h. lt_of_rank (test x) (rank_inside 1 xs i x at h);
    between = λ i x at h k.
        eq_of_rank (test x) (rank_outside 1 xs i x m at h) (rank_inside 2 xs i x at k);
    behind = λ i x at h. gt_of_rank (test x) (rank_outside 2 xs i x m at h);
  }
