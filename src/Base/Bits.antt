-- ===== src/Base/Bits.antt =====
-- The bit operations of the source at variables: each works digit by digit.
use Prim.Native.Nat.{
  ℕ, zero, suc, ◌+◌, ◌*◌, ◌/◌, ◌%◌, ◌^◌, ◌≤◌, ◌<◌, min, max, differ, digits, bitwise, bit_and,
  bit_or, bit_xor, bit_and-bitwise, bit_or-bitwise, bit_xor-bitwise,
}
use mathlib.Core.Path.{◌≡◌, refl, ap, ◌∙◌}
use mathlib.Core.Logic.{◌≢◌}
use native.Mathlib.Nat.{le_refl, pow-suc}
use mathlib.Core.Bool.{Bool, true, ◌&&◌}
use native.Mathlib.Omega.{arith}

-- `bitwise` recurs on fuel, its first operand; any fuel from there on gives the same digits.
module _ (rest : ℕ → ℕ) (digit : ℕ → ℕ → ℕ) where
  more_fuel : (n m a b : ℕ) → a ≤ n → a ≤ m → digits rest digit n a b ≡ digits rest digit m a b
  more_fuel zero zero a b p q = refl
  more_fuel zero (suc m) zero b p q = refl
  more_fuel zero (suc m) (suc a) b p q = absurd (omega arith)
  more_fuel (suc n) zero zero b p q = refl
  more_fuel (suc n) zero (suc a) b p q = absurd (omega arith)
  more_fuel (suc n) (suc m) zero b p q = refl
  more_fuel (suc n) (suc m) (suc a) b p q =
      rw (more_fuel n m (suc a / 2) (b / 2) (omega arith) (omega arith))

  lowest_digit :
      (a b : ℕ)
      → bitwise rest digit (suc a) b
        ≡ bitwise rest digit (suc a / 2) (b / 2) * 2 + digit (suc a % 2) (b % 2)
  lowest_digit a b =
      omega (arith, more_fuel a (suc a / 2) (suc a / 2) (b / 2) (omega arith) (le_refl _))

pub bit_and-step : (a b : ℕ) → bit_and a b ≡ bit_and (a / 2) (b / 2) * 2 + min (a % 2) (b % 2)
bit_and-step zero b = simp bit_and-bitwise (omega arith)
bit_and-step (suc a) b = simp bit_and-bitwise (lowest_digit (λ y. 0) min a b)

pub bit_or-step : (a b : ℕ) → bit_or a b ≡ bit_or (a / 2) (b / 2) * 2 + max (a % 2) (b % 2)
bit_or-step zero b = simp bit_or-bitwise (omega arith)
bit_or-step (suc a) b = simp bit_or-bitwise (lowest_digit (λ y. y) max a b)

pub bit_xor-step : (a b : ℕ) → bit_xor a b ≡ bit_xor (a / 2) (b / 2) * 2 + differ (a % 2) (b % 2)
bit_xor-step zero b = simp bit_xor-bitwise (omega arith)
bit_xor-step (suc a) b = simp bit_xor-bitwise (lowest_digit (λ y. y) differ a b)

-- Bit `i` of a number.
abbrev pub bit : ℕ → ℕ → ℕ
bit a zero = a % 2
bit a (suc i) = bit (a / 2) i

pub bit-lt : (a i : ℕ) → bit a i < 2
bit-lt a zero = omega arith
bit-lt a (suc i) = bit-lt (a / 2) i

pub bit-bit_and : (i a b : ℕ) → bit (bit_and a b) i ≡ min (bit a i) (bit b i)
bit-bit_and zero a b = omega (arith, bit_and-step a b)
bit-bit_and (suc i) a b =
    ap (λ (t : ℕ). bit t i) (omega (arith, bit_and-step a b)) ∙ bit-bit_and i (a / 2) (b / 2)

pub bit-bit_or : (i a b : ℕ) → bit (bit_or a b) i ≡ max (bit a i) (bit b i)
bit-bit_or zero a b = omega (arith, bit_or-step a b)
bit-bit_or (suc i) a b =
    ap (λ (t : ℕ). bit t i) (omega (arith, bit_or-step a b)) ∙ bit-bit_or i (a / 2) (b / 2)

pub bit-zero : (i : ℕ) → bit 0 i ≡ 0
bit-zero zero = refl
bit-zero (suc i) = bit-zero i

bit-one : (i : ℕ) → bit 1 (suc i) ≡ 0
bit-one i = bit-zero i

half_pow : (k : ℕ) → 2 ^ suc k / 2 ≡ 2 ^ k
half_pow k = omega (arith, pow-suc 2 k)

even_pow : (k : ℕ) → 2 ^ suc k % 2 ≡ 0
even_pow k = omega (arith, pow-suc 2 k)

-- A power of two has one bit.
pub bit-pow_self : (k : ℕ) → bit (2 ^ k) k ≡ 1
bit-pow_self zero = refl
bit-pow_self (suc k) = ap (λ (t : ℕ). bit t k) (half_pow k) ∙ bit-pow_self k

pub bit-pow_ne : (k i : ℕ) → k ≢ i → bit (2 ^ k) i ≡ 0
bit-pow_ne zero zero h = absurd (h refl)
bit-pow_ne zero (suc i) h = bit-one i
bit-pow_ne (suc k) zero h = even_pow k
bit-pow_ne (suc k) (suc i) h =
    ap (λ (t : ℕ). bit t i) (half_pow k) ∙ bit-pow_ne k i (λ e. h (ap suc e))

mask_none : (bound a : ℕ) → a < bound → bit_and a 0 ≡ 0
mask_none zero a below = absurd (omega arith)
mask_none (suc bound) zero below = refl
mask_none (suc bound) (suc a) below =
    omega (arith, mask_none bound (suc a / 2) (omega arith), bit_and-step (suc a) 0)

pub bit_and-zero : (a : ℕ) → bit_and a 0 ≡ 0
bit_and-zero a = mask_none (suc a) a (omega arith)

-- A mask of one bit.
pub bit_and-pow : (k a : ℕ) → bit_and a (2 ^ k) ≡ bit a k * 2 ^ k
bit_and-pow zero a = omega (arith, bit_and-step a 1, bit_and-zero (a / 2))
bit_and-pow (suc k) a =
    bit_and-step a (2 ^ suc k)
    ∙ rw (half_pow k, even_pow k)
        (omega (
          arith,
          pow-suc 2 k,
          bit_and-pow k (a / 2),
          ap (λ (t : ℕ). bit (a / 2) k * t) (pow-suc 2 k),
        ))

-- The mask of the three low bits.
pub bit_and_seven : (a : ℕ) → bit_and a 7 ≡ a % 8
bit_and_seven a = omega (
  arith,
  bit_and-step a 7,
  bit_and-step (a / 2) 3,
  bit_and-step (a / 2 / 2) 1,
  bit_and-zero (a / 2 / 2 / 2),
)

differ_zero : (d : ℕ) → differ d 0 ≡ d
differ_zero zero = refl
differ_zero (suc d) = refl

bit_xor-zero_fuel : (n a : ℕ) → a ≤ n → bit_xor a 0 ≡ a
bit_xor-zero_fuel n zero h = refl
bit_xor-zero_fuel zero (suc a) h = absurd (omega arith)
bit_xor-zero_fuel (suc n) (suc a) h =
    bit_xor-step (suc a) 0
    ∙ rw (bit_xor-zero_fuel n (suc a / 2) (omega arith), differ_zero (suc a % 2)) (omega arith)

pub bit_xor-zero : (a : ℕ) → bit_xor a 0 ≡ a
bit_xor-zero a = bit_xor-zero_fuel a a (le_refl a)

bit_xor-pow_suc : (k x : ℕ) → bit_xor x (2 ^ suc k) ≡ bit_xor (x / 2) (2 ^ k) * 2 + x % 2
bit_xor-pow_suc k x = bit_xor-step x (2 ^ suc k) ∙ rw (half_pow k, even_pow k, differ_zero (x % 2))

-- `x ^ (1 << k)` on a number of `k + 1` bits flips its top bit.
pub bit_xor-top :
    (k x : ℕ)
    → x < 2 ^ suc k
    → (x < 2 ^ k → bit_xor x (2 ^ k) ≡ x + 2 ^ k) × (2 ^ k ≤ x → bit_xor x (2 ^ k) + 2 ^ k ≡ x)
bit_xor-top zero zero h = (λ l. refl, λ l. absurd (omega arith))
bit_xor-top zero (suc zero) h = (λ l. absurd (omega arith), λ l. refl)
bit_xor-top zero (suc (suc x)) h = absurd (omega arith)
bit_xor-top (suc k) x h =
    let half = bit_xor-top k (x / 2) (omega (arith, pow-suc 2 (suc k))) in
    (
      λ l. omega (arith, bit_xor-pow_suc k x, pow-suc 2 k, half.0 (omega (arith, pow-suc 2 k))),
      λ l. omega (arith, bit_xor-pow_suc k x, pow-suc 2 k, half.1 (omega (arith, pow-suc 2 k))),
    )

-- Whether a test passes at `0` to `k - 1`.
unfoldable pub passes : (ℕ → Bool) → ℕ → Bool
passes test zero = true
passes test (suc k) = passes test k && test k

pub passes-at : (test : ℕ → Bool) (i k : ℕ) → i < k → passes test k ≡ true → test i ≡ true
unfolding passes
passes-at test i zero below run = absurd (omega arith)
passes-at test i (suc k) below run = ground (arith, passes-at test i k)
