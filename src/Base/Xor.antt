-- ===== src/Base/Xor.antt =====
-- The exclusive or of numbers: it is associative, and adds numbers that have no bits in common.
use Prim.Native.Nat.{ℕ, zero, suc, ◌+◌, ◌*◌, ◌/◌, ◌%◌, ◌^◌, ◌≤◌, ◌<◌, differ, bit_xor}
use mathlib.Core.Path.{◌≡◌, refl, ap, ◌∙◌, sym}
use native.Mathlib.Nat.{pow-suc}
use native.Mathlib.Omega.{arith}
use kudu_rs.Base.Bits.{bit_xor-step, bit_xor-zero}

pub differ-lt : (a b : ℕ) → a < 2 → b < 2 → differ a b < 2
differ-lt zero zero ha hb = omega arith
differ-lt zero (suc b) ha hb = hb
differ-lt (suc a) zero ha hb = ha
differ-lt (suc zero) (suc zero) ha hb = omega arith
differ-lt (suc (suc a)) (suc b) ha hb = absurd (omega arith)
differ-lt (suc zero) (suc (suc b)) ha hb = absurd (omega arith)

differ_assoc : (a b c : ℕ) → a < 2 → b < 2 → c < 2 → differ (differ a b) c ≡ differ a (differ b c)
differ_assoc zero zero zero ha hb hc = refl
differ_assoc zero zero (suc c) ha hb hc = refl
differ_assoc zero (suc b) zero ha hb hc = refl
differ_assoc zero (suc zero) (suc zero) ha hb hc = refl
differ_assoc (suc a) zero zero ha hb hc = refl
differ_assoc (suc zero) zero (suc zero) ha hb hc = refl
differ_assoc (suc zero) (suc zero) zero ha hb hc = refl
differ_assoc (suc zero) (suc zero) (suc zero) ha hb hc = refl
differ_assoc (suc (suc a)) b c ha hb hc = absurd (omega arith)
differ_assoc a (suc (suc b)) c ha hb hc = absurd (omega arith)
differ_assoc a b (suc (suc c)) ha hb hc = absurd (omega arith)

-- The digits of an exclusive or.
half-bit_xor : (a b : ℕ) → bit_xor a b / 2 ≡ bit_xor (a / 2) (b / 2)
half-bit_xor a b =
    omega (arith, bit_xor-step a b, differ-lt (a % 2) (b % 2) (omega arith) (omega arith))

digit-bit_xor : (a b : ℕ) → bit_xor a b % 2 ≡ differ (a % 2) (b % 2)
digit-bit_xor a b =
    omega (arith, bit_xor-step a b, differ-lt (a % 2) (b % 2) (omega arith) (omega arith))

assoc_fuel :
    (n a b c : ℕ) → a ≤ n → b ≤ n → c ≤ n → bit_xor (bit_xor a b) c ≡ bit_xor a (bit_xor b c)
assoc_fuel zero zero zero zero ha hb hc = refl
assoc_fuel zero (suc a) b c ha hb hc = absurd (omega arith)
assoc_fuel zero zero (suc b) c ha hb hc = absurd (omega arith)
assoc_fuel zero zero zero (suc c) ha hb hc = absurd (omega arith)
assoc_fuel (suc n) a b c ha hb hc =
    bit_xor-step (bit_xor a b) c
    ∙ rw
        (
          half-bit_xor a b,
          digit-bit_xor a b,
          assoc_fuel n (a / 2) (b / 2) (c / 2) (omega arith) (omega arith) (omega arith),
          differ_assoc (a % 2) (b % 2) (c % 2) (omega arith) (omega arith) (omega arith),
        )
        (sym (bit_xor-step a (bit_xor b c) ∙ rw (half-bit_xor b c, digit-bit_xor b c) refl))

pub bit_xor_assoc : (a b c : ℕ) → bit_xor (bit_xor a b) c ≡ bit_xor a (bit_xor b c)
bit_xor_assoc a b c = assoc_fuel (a + b + c) a b c (omega arith) (omega arith) (omega arith)

twice-bit_xor : (a b : ℕ) → bit_xor (a * 2) (b * 2) ≡ bit_xor a b * 2
twice-bit_xor a b = bit_xor-step (a * 2) (b * 2) ∙ rw (half a, half b, even a, even b) (omega arith)
  where
    half : (x : ℕ) → x * 2 / 2 ≡ x
    half x = omega arith

    even : (x : ℕ) → x * 2 % 2 ≡ 0
    even x = omega arith

shift_pow : (x k : ℕ) → x * 2 ^ suc k ≡ x * 2 ^ k * 2
shift_pow x k = ap (λ (t : ℕ). x * t) (pow-suc 2 k) ∙ grind arith

-- A shift to the left of both operands.
pub bit_xor-shift : (k a b : ℕ) → bit_xor (a * 2 ^ k) (b * 2 ^ k) ≡ bit_xor a b * 2 ^ k
bit_xor-shift zero a b = rw (times_one a, times_one b, times_one (bit_xor a b)) refl
  where
    times_one : (x : ℕ) → x * 2 ^ 0 ≡ x
    times_one x = omega arith
bit_xor-shift (suc k) a b =
    rw (shift_pow a k, shift_pow b k, shift_pow (bit_xor a b) k)
      (twice-bit_xor (a * 2 ^ k) (b * 2 ^ k) ∙ ap (λ (t : ℕ). t * 2) (bit_xor-shift k a b))

-- A number below the bits of another.
pub bit_xor-below : (k a b : ℕ) → b < 2 ^ k → bit_xor (a * 2 ^ k) b ≡ a * 2 ^ k + b
bit_xor-below zero a zero below = bit_xor-zero (a * 2 ^ 0) ∙ omega arith
bit_xor-below zero a (suc b) below = absurd (omega arith)
bit_xor-below (suc k) a b below = rw (shift_pow a k) (
    bit_xor-step (a * 2 ^ k * 2) b
    ∙ rw
        (half (a * 2 ^ k), even (a * 2 ^ k), bit_xor-below k a (b / 2) (omega (arith, pow-suc 2 k)))
        (omega arith))
  where
    half : (x : ℕ) → x * 2 / 2 ≡ x
    half x = omega arith

    even : (x : ℕ) → x * 2 % 2 ≡ 0
    even x = omega arith
