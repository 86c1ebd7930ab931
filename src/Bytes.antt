-- ===== src/Bytes.antt =====
-- The order of byte slices, by which src/key.rs, src/row.rs and src/meta_cache.rs compare keys.
-- The second order decides where the first is a tie.
pub mod Order
use kudu_rs.Base.{
  Bool, List, Ordering, [], arith, compare, false, refl, true, ℕ, ◌&&◌, ◌==◌, ◌∷◌, ◌≡◌,
}

abbrev pub then_cmp : Ordering → Ordering → Ordering
then_cmp Ordering.lt o = Ordering.lt
then_cmp Ordering.eq o = o
then_cmp Ordering.gt o = Ordering.gt

-- The lexicographic order of byte slices: `Ord` of `[u8]` and, on UTF-8, of `str`.
unfoldable pub cmp_bytes : List ℕ → List ℕ → Ordering
cmp_bytes [] [] = Ordering.eq
cmp_bytes [] (y ∷ ys) = Ordering.lt
cmp_bytes (x ∷ xs) [] = Ordering.gt
cmp_bytes (x ∷ xs) (y ∷ ys) = then_cmp (compare x y) (cmp_bytes xs ys)

pub then_cmp_assoc : (a b c : Ordering) → then_cmp (then_cmp a b) c ≡ then_cmp a (then_cmp b c)
then_cmp_assoc Ordering.lt b c = refl
then_cmp_assoc Ordering.eq b c = refl
then_cmp_assoc Ordering.gt b c = refl

pub cmp_bytes_self : (xs : List ℕ) → cmp_bytes xs xs ≡ Ordering.eq
unfolding cmp_bytes
cmp_bytes_self [] = refl
cmp_bytes_self (x ∷ xs) = ground (arith, cmp_bytes_self xs)

pub eq_of_cmp_bytes : (xs ys : List ℕ) → cmp_bytes xs ys ≡ Ordering.eq → xs ≡ ys
unfolding cmp_bytes
eq_of_cmp_bytes [] [] h = refl
eq_of_cmp_bytes [] (y ∷ ys) h = cc
eq_of_cmp_bytes (x ∷ xs) [] h = cc
eq_of_cmp_bytes (x ∷ xs) (y ∷ ys) h = ground (arith, eq_of_cmp_bytes xs ys)

-- `==` of byte slices and of strings.
unfoldable pub eq_bytes : List ℕ → List ℕ → Bool
eq_bytes [] [] = true
eq_bytes [] (y ∷ ys) = false
eq_bytes (x ∷ xs) [] = false
eq_bytes (x ∷ xs) (y ∷ ys) = (x == y) && eq_bytes xs ys

pub eq_bytes_self : (xs : List ℕ) → eq_bytes xs xs ≡ true
unfolding eq_bytes
eq_bytes_self [] = refl
eq_bytes_self (x ∷ xs) = ground (arith, eq_bytes_self xs)

pub eq_of_eq_bytes : (xs ys : List ℕ) → eq_bytes xs ys ≡ true → xs ≡ ys
unfolding eq_bytes
eq_of_eq_bytes [] [] h = refl
eq_of_eq_bytes [] (y ∷ ys) h = cc
eq_of_eq_bytes (x ∷ xs) [] h = cc
eq_of_eq_bytes (x ∷ xs) (y ∷ ys) h = ground (arith, eq_of_eq_bytes xs ys)

-- `<` and `<=` of byte slices.
unfoldable pub lt_bytes : List ℕ → List ℕ → Bool
unfolding cmp_bytes
lt_bytes xs ys = elim (cmp_bytes xs ys) [ Ordering.lt ↦ true | _ ↦ false ]

unfoldable pub le_bytes : List ℕ → List ℕ → Bool
unfolding cmp_bytes
le_bytes xs ys = elim (cmp_bytes xs ys) [ Ordering.gt ↦ false | _ ↦ true ]
