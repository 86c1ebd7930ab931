-- ===== src/Bytes/Order.antt =====
-- The order of byte slices is total: `<=` and `<` of keys.
use kudu_rs.Base.{List, [], arith, false, not, refl, true, ℕ, ◌∷◌, ◌≡◌}
use kudu_rs.Bytes.{le_bytes, lt_bytes}

pub le_bytes_trans :
    (xs ys zs : List ℕ) → le_bytes xs ys ≡ true → le_bytes ys zs ≡ true → le_bytes xs zs ≡ true
unfolding le_bytes
le_bytes_trans [] ys [] h k = refl
le_bytes_trans [] ys (z ∷ zs) h k = refl
le_bytes_trans (x ∷ xs) [] zs h k = cc
le_bytes_trans (x ∷ xs) (y ∷ ys) [] h k = cc
le_bytes_trans (x ∷ xs) (y ∷ ys) (z ∷ zs) h k = ground (arith, le_bytes_trans xs ys zs)

pub le_bytes_total : (xs ys : List ℕ) → le_bytes xs ys ≡ false → le_bytes ys xs ≡ true
unfolding le_bytes
le_bytes_total [] [] h = cc
le_bytes_total [] (y ∷ ys) h = cc
le_bytes_total (x ∷ xs) [] h = refl
le_bytes_total (x ∷ xs) (y ∷ ys) h = ground (arith, le_bytes_total xs ys)

pub lt_bytes-not : (xs ys : List ℕ) → lt_bytes xs ys ≡ not (le_bytes ys xs)
unfolding lt_bytes le_bytes
lt_bytes-not [] [] = refl
lt_bytes-not [] (y ∷ ys) = refl
lt_bytes-not (x ∷ xs) [] = refl
lt_bytes-not (x ∷ xs) (y ∷ ys) = ground (arith, lt_bytes-not xs ys)

pub le_bytes_refl : (xs : List ℕ) → le_bytes xs xs ≡ true
unfolding le_bytes
le_bytes_refl [] = refl
le_bytes_refl (x ∷ xs) = ground (arith, le_bytes_refl xs)

pub le_bytes_antisym : (xs ys : List ℕ) → le_bytes xs ys ≡ true → le_bytes ys xs ≡ true → xs ≡ ys
unfolding le_bytes
le_bytes_antisym [] [] h k = refl
le_bytes_antisym [] (y ∷ ys) h k = cc
le_bytes_antisym (x ∷ xs) [] h k = cc
le_bytes_antisym (x ∷ xs) (y ∷ ys) h k = ground (arith, le_bytes_antisym xs ys)

pub le_bytes-empty : (xs : List ℕ) → le_bytes [] xs ≡ true
unfolding le_bytes
le_bytes-empty [] = refl
le_bytes-empty (x ∷ xs) = refl
