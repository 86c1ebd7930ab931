-- ===== src/Row/Slices.antt =====
-- Reading and writing places of the data of a row of src/row.rs.
use kudu_rs.Base.{
  List, [], ap, arith, drop, inl, inr, length, length-append, length-drop, le→leb, ok, refl, suc,
  sym, take, take-append_length, zero, ℕ, ◌++◌, ◌+◌, ◌-◌, ◌∙◌, ◌∷◌, ◌≡◌, ◌≤◌, ◌⊎◌,
}
use kudu_rs.Row.{slice, splice}
use native.Mathlib.Numerals.{unary_clauses}

suc_add : (e k : ℕ) → suc (e + k) ≡ suc e + k
suc_add e k = omega arith

module _ {A : Type 0} where
  take-drop-append :
      (j m : ℕ) (xs ys : List A)
      → j + m ≤ length xs
      → take m (drop j (xs ++ ys)) ≡ take m (drop j xs)
  take-drop-append zero zero xs ys h = refl
  take-drop-append zero (suc m) [] ys h = absurd (omega arith)
  take-drop-append zero (suc m) (x ∷ xs) ys h =
      ap (◌∷◌ x) (take-drop-append zero m xs ys (omega arith))
  take-drop-append (suc j) zero xs ys h = refl
  take-drop-append (suc j) (suc m) [] ys h = absurd (omega arith)
  take-drop-append (suc j) (suc m) (x ∷ xs) ys h = take-drop-append j (suc m) xs ys (omega arith)

  pub take-drop-take :
      (j m n : ℕ) (xs : List A) → j + m ≤ n → take m (drop j (take n xs)) ≡ take m (drop j xs)
  take-drop-take zero zero n xs h = refl
  take-drop-take zero (suc m) zero xs h = absurd (omega arith)
  take-drop-take zero (suc m) (suc n) [] h = refl
  take-drop-take zero (suc m) (suc n) (x ∷ xs) h =
      ap (◌∷◌ x) (take-drop-take zero m n xs (omega arith))
  take-drop-take (suc j) m zero xs h = absurd (omega arith)
  take-drop-take (suc j) m (suc n) [] h = refl
  take-drop-take (suc j) m (suc n) (x ∷ xs) h = take-drop-take j m n xs (omega arith)

  drop-append_past :
      (j : ℕ) (xs ys : List A) → length xs ≤ j → drop j (xs ++ ys) ≡ drop (j - length xs) ys
  drop-append_past j [] ys h = ap (λ (k : ℕ). drop k ys) (omega arith)
  drop-append_past zero (x ∷ xs) ys h = absurd (omega arith)
  drop-append_past (suc j) (x ∷ xs) ys h =
      drop-append_past j xs ys (omega arith) ∙ ap (λ (k : ℕ). drop k ys) (omega arith)

  drop-drop : (k e : ℕ) (xs : List A) → drop k (drop e xs) ≡ drop (e + k) xs
  drop-drop k zero xs = ap (λ (i : ℕ). drop i xs) (omega arith)
  drop-drop zero (suc e) [] = simp unary_clauses refl
  drop-drop (suc k) (suc e) [] = simp unary_clauses refl
  drop-drop k (suc e) (x ∷ xs) = drop-drop k e xs ∙ ap (λ (i : ℕ). drop i (x ∷ xs)) (suc_add e k)

  pub length-take : (n : ℕ) (xs : List A) → n ≤ length xs → length (take n xs) ≡ n
  length-take zero xs h = refl
  length-take (suc n) [] h = absurd (omega arith)
  length-take (suc n) (x ∷ xs) h = ap suc (length-take n xs (omega arith))

pub length-splice :
    (bytes : List ℕ) (at : ℕ) (bs : List ℕ)
    → at + length bs ≤ length bytes
    → length (splice bytes at bs) ≡ length bytes
unfolding splice
length-splice bytes at bs h =
    length-append (take at bytes) (bs ++ drop (at + length bs) bytes)
    ∙ omega (
      arith,
      length-append bs (drop (at + length bs) bytes),
      length-take at bytes (omega arith),
      length-drop (at + length bs) bytes,
    )

-- What is in bounds is read.
pub slice-ok :
    (bytes : List ℕ) (at n : ℕ)
    → at + n ≤ length bytes
    → (slice bytes at n ≡ ok (take n (drop at bytes))) × (length (take n (drop at bytes)) ≡ n)
unfolding slice
slice-ok bytes at n h = (
  rw (le→leb (at + n) (length bytes) h) refl,
  length-take n (drop at bytes) (omega (arith, length-drop at bytes, h)),
)

-- The place behind the bytes before `at`.
drop-splice :
    (bytes : List ℕ) (at : ℕ) (bs : List ℕ)
    → at + length bs ≤ length bytes
    → drop at (splice bytes at bs) ≡ bs ++ drop (at + length bs) bytes
unfolding splice
drop-splice bytes at bs h =
    let before : length (take at bytes) ≡ at = length-take at bytes (omega (arith, h)) in
    let none_left : at - length (take at bytes) ≡ 0 = omega (arith, before) in
    drop-append_past at (take at bytes) (bs ++ drop (at + length bs) bytes) (omega (arith, before))
    ∙ ap (λ (k : ℕ). drop k (bs ++ drop (at + length bs) bytes)) none_left

-- What was written is read.
pub slice-splice_self :
    (bytes : List ℕ) (at : ℕ) (bs : List ℕ)
    → at + length bs ≤ length bytes
    → slice (splice bytes at bs) at (length bs) ≡ ok bs
slice-splice_self bytes at bs h =
    (slice-ok (splice bytes at bs) at (length bs) (omega (arith, length-splice bytes at bs h, h))).0
    ∙ ap (λ (xs : List ℕ). ok (take (length bs) xs)) (drop-splice bytes at bs h)
    ∙ ap ok (take-append_length bs (drop (at + length bs) bytes))

pub read_apart :
    (bytes : List ℕ) (at : ℕ) (bs : List ℕ) (j m : ℕ)
    → at + length bs ≤ length bytes
    → (j + m ≤ at) ⊎ (at + length bs ≤ j)
    → take m (drop j (splice bytes at bs)) ≡ take m (drop j bytes)
unfolding splice
read_apart bytes at bs j m h (inl before) =
    take-drop-append j m (take at bytes) _ (omega (arith, length-take at bytes (omega (arith, h))))
    ∙ take-drop-take j m at bytes before
read_apart bytes at bs j m h (inr after) = ap (take m) (
    ap (λ (k : ℕ). drop k (splice bytes at bs)) to_end
    ∙ sym (drop-drop (j - at) at (splice bytes at bs))
    ∙ ap (drop (j - at)) (drop-splice bytes at bs h)
    ∙ drop-append_past (j - at) bs (drop (at + length bs) bytes) (omega (arith, after))
    ∙ drop-drop (j - at - length bs) (at + length bs) bytes
    ∙ ap (λ (k : ℕ). drop k bytes) (omega (arith, after)))
  where
    to_end : j ≡ at + (j - at)
    to_end = omega (arith, after)

-- What was not written is as before.
pub slice-splice_apart :
    (bytes : List ℕ) (at : ℕ) (bs : List ℕ) (j m : ℕ)
    → at + length bs ≤ length bytes
    → j + m ≤ length bytes
    → (j + m ≤ at) ⊎ (at + length bs ≤ j)
    → slice (splice bytes at bs) j m ≡ slice bytes j m
slice-splice_apart bytes at bs j m h inside apart =
    (slice-ok (splice bytes at bs) j m (omega (arith, length-splice bytes at bs h, inside))).0
    ∙ ap ok (read_apart bytes at bs j m h apart)
    ∙ sym (slice-ok bytes j m inside).0
