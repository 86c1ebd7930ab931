-- ===== src/Backoff.antt =====
-- src/backoff.rs: the randomized exponential backoff. Floating point arithmetic and the crate rand enter
-- as an interface.
pub mod Bounds
pub mod Runs
use kudu_rs.Base.{
  Bool, Outcome, if◌then◌else◌, leb, ltb, ok, panic, true, ℕ, ◌%◌, ◌*◌, ◌+◌, ◌<◌, ◌^◌, ◌↔◌, ◌≡◌,
  ◌≤◌,
}

pub record Backoff : Type 0 where
  pub initial : ℕ
  pub max : ℕ
  pub retries : ℕ

-- `(max as f64 / initial as f64).log2() < retries as f64`, which is exact on these numbers, and
-- `(n as f64 * rand) as u64` for a number `rand` of `R`, from 1 on and below 2.
pub record FloatMath (R : Type 0) : Type 0 where
  pub log2_ratio_less : ℕ → ℕ → ℕ → Bool
  pub scale : ℕ → R → ℕ
  pub log2_ratio_less-iff :
      (max initial retries : ℕ)
      → max < 2 ^ 32
      → 0 < initial
      → initial < 2 ^ 32
      → (log2_ratio_less max initial retries ≡ true) ↔ (max < initial * 2 ^ retries)
  pub scale_lower : (n : ℕ) (r : R) → n < 2 ^ 53 → n ≤ scale n r
  pub scale_upper : (n : ℕ) (r : R) → n < 2 ^ 53 → scale n r ≤ 2 * n

unfoldable pub with_duration_range : ℕ → ℕ → Outcome Backoff
with_duration_range initial max =
    if ltb 0 initial then ok (record { initial = initial; max = max; retries = 0 }) else panic

unfoldable pub reset : Backoff → Backoff
reset b = record b { retries = 0 }

module _ {R : Type 0} (math : FloatMath R) where
  -- With the number that `gen_range` draws; `pow`, `*` and `+=` wrap around.
  unfoldable pub next_backoff_ms : Backoff → R → Backoff × ℕ
  next_backoff_ms b rand =
      if math.log2_ratio_less b.max b.initial b.retries
      then (b, b.max)
      else let duration = math.scale (b.initial * (2 ^ b.retries % 2 ^ 64) % 2 ^ 64) rand in
        (
          record b { retries = (b.retries + 1) % 2 ^ 32 },
          if leb b.max duration then b.max else duration,
        )
