-- ===== src/Key/Hash/Reference.antt =====
-- MurmurHash64A, by which `murmur2_64` of src/key.rs is judged: it takes its input as numbers of eight
-- bytes and the number that the rest makes, the least byte first.
use kudu_rs.Base.{
  All, List, [], ap, arith, length, suc, sym, ℕ, ◌%◌, ◌*◌, ◌+◌, ◌/◌, ◌^◌, ◌∙◌, ◌∷◌, ◌≡◌,
}
use kudu_rs.Base.Bits.{bit_xor-zero}
use kudu_rs.Base.Words.{IsByte}
use kudu_rs.Base.Xor.{bit_xor-below, bit_xor-shift, bit_xor_assoc}
use Prim.Native.Nat.{bit_xor}
use native.Mathlib.Numerals.{towards_suc}

-- The number of bytes whose first is the least.
unfoldable pub number : List ℕ → ℕ
number [] = 0
number (b ∷ bytes) = b + 256 * number bytes

abbrev pub times_prime : ℕ → ℕ
times_prime x = (x * 0xc6a4a7935bd1e995) % 2 ^ 64

abbrev pub fold_high : ℕ → ℕ
fold_high x = bit_xor x (x / 2 ^ 47)

-- A word of eight bytes enters the hash.
abbrev pub enter : ℕ → ℕ → ℕ
enter h word = times_prime (bit_xor h (times_prime (fold_high (times_prime word))))

-- The rest, if there is one, enters by its number.
abbrev pub enter_rest : List ℕ → ℕ → ℕ
enter_rest [] h = h
enter_rest (b ∷ bytes) h = times_prime (bit_xor h (number (b ∷ bytes)))

unfoldable pub hash_words : List ℕ → ℕ → ℕ
hash_words (a ∷ b ∷ c ∷ d ∷ e ∷ f ∷ g ∷ i ∷ bytes) h =
    hash_words bytes (enter h (number (a ∷ b ∷ c ∷ d ∷ e ∷ f ∷ g ∷ i ∷ [])))
hash_words bytes h = fold_high (times_prime (fold_high (enter_rest bytes h)))

unfoldable pub murmur_hash : List ℕ → ℕ → ℕ
unfolding hash_words
murmur_hash bytes seed = hash_words bytes (bit_xor seed (times_prime (length bytes)))

-- The bytes, from byte `i` of a number on, that enter one by one, the last first.
unfoldable pub xor_bytes : ℕ → List ℕ → ℕ → ℕ
xor_bytes i [] h = h
xor_bytes i (b ∷ bytes) h = bit_xor (xor_bytes (suc i) bytes h) (b * 2 ^ (8 * i))

eight_more : (x i : ℕ) → x * 2 ^ (8 * suc i) ≡ x * 2 ^ 8 * 2 ^ (8 * i)
eight_more x i =
    ap (λ (k : ℕ). x * 2 ^ k) shift ∙ ap (λ (t : ℕ). x * t) (pow_eight (8 * i)) ∙ grind arith
  where
    shift : 8 * suc i ≡ 8 * i + 8
    shift = omega arith

    pow_eight : (k : ℕ) → 2 ^ (k + 8) ≡ 256 * 2 ^ k
    pow_eight k = simp towards_suc (omega arith)

-- Bytes that enter one by one enter as their number.
pub xor_bytes-number :
    (i : ℕ) (bytes : List ℕ) (h : ℕ)
    → All IsByte bytes
    → xor_bytes i bytes h ≡ bit_xor h (number bytes * 2 ^ (8 * i))
unfolding xor_bytes number
xor_bytes-number i [] h small = sym (ap (bit_xor h) (omega arith) ∙ bit_xor-zero h)
xor_bytes-number i (b ∷ bytes) h small =
    ap (λ (x : ℕ). bit_xor x (b * 2 ^ (8 * i))) (xor_bytes-number (suc i) bytes h small.1)
    ∙ bit_xor_assoc h (number bytes * 2 ^ (8 * suc i)) (b * 2 ^ (8 * i))
    ∙ ap (bit_xor h) (
        ap (λ (x : ℕ). bit_xor x (b * 2 ^ (8 * i))) (eight_more (number bytes) i)
        ∙ bit_xor-shift (8 * i) (number bytes * 2 ^ 8) b
        ∙ ap (λ (x : ℕ). x * 2 ^ (8 * i)) (bit_xor-below 8 (number bytes) b small.0 ∙ omega arith))
