-- ===== src/BitSet/Laws.antt =====
-- `BitSet` of src/bit_set.rs is a set of the numbers below eight times its bytes.
use kudu_rs.Base.{
  ==_iff, ==_refl, Bool, Bool-cases, ap, arith, false, get_elem?-get_or, get_or, get_or-replicate,
  get_or-set_ne, get_or-set_self, if◌then◌else◌, inl, inr, length, length-replicate, length-set,
  ltb, lt→ltb, ne→==_false, ok, refl, set, suc, sym, true, zero, ℕ, ℕ_discrete, ◌%◌, ◌*◌, ◌+◌, ◌-◌,
  ◌/◌, ◌<◌, ◌==◌, ◌^◌, ◌∙◌, ◌≡◌, ◌≤◌,
}
use kudu_rs.Base.Bits.{
  bit, bit-bit_and, bit-bit_or, bit-lt, bit-pow_ne, bit-pow_self, bit-zero, bit_and-pow,
  bit_and_seven, passes, passes-at,
}
use kudu_rs.BitSet.{BitSet, get, insert, mask, remove, with_capacity}
use Prim.Native.Nat.{bit_and, bit_or, min, max}
use native.Mathlib.Nat.{one-le-pow, zero-mul}

-- Whether the set holds `idx`; out of bounds it does not.
unfoldable pub holds : BitSet → ℕ → Bool
holds s idx = bit (get_or s (idx / 8) 0) (idx % 8) == 1

small_mask : (k : ℕ) → k < 8 → 2 ^ k % 256 ≡ 2 ^ k
small_mask zero h = refl
small_mask (suc zero) h = refl
small_mask (suc (suc zero)) h = refl
small_mask (suc (suc (suc zero))) h = refl
small_mask (suc (suc (suc (suc zero)))) h = refl
small_mask (suc (suc (suc (suc (suc zero))))) h = refl
small_mask (suc (suc (suc (suc (suc (suc zero)))))) h = refl
small_mask (suc (suc (suc (suc (suc (suc (suc zero))))))) h = refl
small_mask (suc (suc (suc (suc (suc (suc (suc (suc k)))))))) h = absurd (omega arith)

pub mask-pow : (idx : ℕ) → mask idx ≡ 2 ^ (idx % 8)
unfolding mask
mask-pow idx = rw bit_and_seven (small_mask (idx % 8) (omega arith))

-- `!(1 << k)` has every bit of a byte but bit `k`.
mask_table : passes (λ k. passes (λ i. bit (255 - 2 ^ k) i == (if k == i then 0 else 1)) 8) 8 ≡ true
unfolding passes
mask_table = refl

bit-not_mask : (k i : ℕ) → k < 8 → i < 8 → bit (255 - 2 ^ k) i ≡ (if k == i then 0 else 1)
bit-not_mask k i hk hi = (==_iff _ _).0 (passes-at _ i 8 hi (passes-at _ k 8 hk mask_table))

byte_test : (b k : ℕ) → ltb 0 (bit_and b (2 ^ k)) ≡ (bit b k == 1)
byte_test b k = rw bit_and-pow (positive (bit b k) (bit-lt b k))
  where
    positive : (d : ℕ) → d < 2 → ltb 0 (d * 2 ^ k) ≡ (d == 1)
    positive zero h = rw (zero-mul (2 ^ k))
    positive (suc zero) h = lt→ltb 0 (1 * 2 ^ k) (omega (arith, one-le-pow k 2))
    positive (suc (suc d)) h = absurd (omega arith)

-- Inside its bytes a set can be asked for any number, and answers whether it holds it.
pub get-holds : (s : BitSet) (idx : ℕ) → idx < 8 * length s → get s idx ≡ ok (holds s idx)
unfolding get holds
get-holds s idx h =
    rw (get, get_elem?-get_or s (idx / 8) 0 (omega arith), mask-pow idx)
      (ap ok (byte_test (get_or s (idx / 8) 0) (idx % 8)))

module _ (s : BitSet) (idx : ℕ) (h : idx < 8 * length s) where
  holds-set :
      (byte : ℕ) (j : ℕ) (b : ℕ)
      → ((i : ℕ) → i < 8 → bit byte i ≡ (if idx % 8 == i then b else bit (get_or s (idx / 8) 0) i))
      → holds (set s (idx / 8) byte) j ≡ (if idx == j then b == 1 else holds s j)
  unfolding holds
  holds-set byte j b bits = elim (ℕ_discrete (idx / 8) (j / 8)) [
    | yes e ↦
        rw
          (
            ← e,
            get_or-set_self s (idx / 8) byte 0 (omega arith),
            bits (j % 8) (omega arith),
            same_place e,
          )
          (if-test (idx == j) (λ (t : ℕ). t == 1) b (bit (get_or s (idx / 8) 0) (j % 8)))
    | no ne ↦ rw (
      get_or-set_ne s (idx / 8) (j / 8) byte 0 ne,
      ne→==_false idx j (λ (e : idx ≡ j). ne (ap (λ (t : ℕ). t / 8) e)),
    )
  ]
    where
      same_place : idx / 8 ≡ j / 8 → (idx % 8 == j % 8) ≡ (idx == j)
      same_place e = ground arith

      if-test :
          (c : Bool) (f : ℕ → Bool) (x y : ℕ) → f (if c then x else y) ≡ (if c then f x else f y)
      if-test true f x y = refl
      if-test false f x y = refl

  -- Inside the bytes of a set, insert adds its number and no other, and keeps the number of bytes.
  pub insert-holds :
      (s' : BitSet) × (insert s idx ≡ ok s')
      × (length s' ≡ length s)
      × ((j : ℕ) → holds s' j ≡ (if idx == j then true else holds s j))
  unfolding insert
  insert-holds = (
    set s (idx / 8) (bit_or (get_or s (idx / 8) 0) (mask idx)),
    rw (insert, get_elem?-get_or s (idx / 8) 0 (omega arith)),
    length-set s (idx / 8) _,
    λ j.
        holds-set _ j 1
          (λ i hi. bit-bit_or i (get_or s (idx / 8) 0) (mask idx) ∙ rw mask-pow (added i hi)),
  )
    where
      byte : ℕ
      byte = get_or s (idx / 8) 0

      added :
          (i : ℕ)
          → i < 8
          → max (bit byte i) (bit (2 ^ (idx % 8)) i) ≡ (if idx % 8 == i then 1 else bit byte i)
      added i hi = elim (ℕ_discrete (idx % 8) i) [
        | yes e ↦ rw (← e, ==_refl, bit-pow_self (idx % 8)) (omega (arith, bit-lt byte (idx % 8)))
        | no ne ↦ rw (ne→==_false (idx % 8) i ne, bit-pow_ne (idx % 8) i ne) (omega arith)
      ]

  -- Inside the bytes of a set, remove takes its number out and no other, and keeps the number of
  -- bytes.
  pub remove-holds :
      (s' : BitSet) × (remove s idx ≡ ok s')
      × (length s' ≡ length s)
      × ((j : ℕ) → holds s' j ≡ (if idx == j then false else holds s j))
  unfolding remove
  remove-holds = (
    set s (idx / 8) (bit_and (get_or s (idx / 8) 0) (255 - mask idx)),
    rw (remove, get_elem?-get_or s (idx / 8) 0 (omega arith)),
    length-set s (idx / 8) _,
    λ j.
        holds-set _ j 0 (λ i hi.
          bit-bit_and i (get_or s (idx / 8) 0) (255 - mask idx) ∙ rw mask-pow (taken i hi)),
  )
    where
      byte : ℕ
      byte = get_or s (idx / 8) 0

      taken :
          (i : ℕ)
          → i < 8
          → min (bit byte i) (bit (255 - 2 ^ (idx % 8)) i)
            ≡ (if idx % 8 == i then 0 else bit byte i)
      taken i hi = elim (ℕ_discrete (idx % 8) i) [
        | yes e ↦ rw (bit-not_mask (idx % 8) i (omega arith) hi, ← e, ==_refl) (omega arith)
        | no ne ↦
            rw (bit-not_mask (idx % 8) i (omega arith) hi, ne→==_false (idx % 8) i ne)
              (omega (arith, bit-lt byte i))
      ]

-- Inside its bytes a set answers whether it holds a number; after insert it holds this number too,
-- after remove it does not, and of the other numbers inside both leave the answer as it was.
pub get-updated :
    (s : BitSet) (idx : ℕ)
    → idx < 8 * length s
    → (get s idx ≡ ok (holds s idx))
      × ((s' : BitSet) × (insert s idx ≡ ok s')
          × ((j : ℕ) → j < 8 * length s → get s' j ≡ (if idx == j then ok true else get s j)))
      × ((s' : BitSet) × (remove s idx ≡ ok s')
          × ((j : ℕ) → j < 8 * length s → get s' j ≡ (if idx == j then ok false else get s j)))
get-updated s idx h =
    let (added, insert_ok, added_long, added_holds) = insert-holds s idx h in
    let (taken, remove_ok, taken_long, taken_holds) = remove-holds s idx h in
    (
      get-holds s idx h,
      (added, insert_ok, λ j k. answers added j true k added_long (added_holds j)),
      (taken, remove_ok, λ j k. answers taken j false k taken_long (taken_holds j)),
    )
  where
    answers :
        (s' : BitSet) (j : ℕ) (now : Bool)
        → j < 8 * length s
        → length s' ≡ length s
        → holds s' j ≡ (if idx == j then now else holds s j)
        → get s' j ≡ (if idx == j then ok now else get s j)
    answers s' j now k long held =
        get-holds s' j (omega (arith, k, long))
        ∙ ap ok held
        ∙ elim (Bool-cases (idx == j)) [ inl e ↦ rw e refl | inr e ↦ rw e (sym (get-holds s j k)) ]

-- A new set has room for the numbers below its capacity and holds none.
pub with_capacity-holds :
    (n : ℕ) → (n ≤ 8 * length (with_capacity n)) × ((j : ℕ) → holds (with_capacity n) j ≡ false)
unfolding with_capacity holds
with_capacity-holds n = (
  omega (arith, length-replicate {A = ℕ} ((n + 7) / 8) 0),
  λ j. rw (get_or-replicate {A = ℕ} ((n + 7) / 8) (j / 8) 0, bit-zero (j % 8)),
)
