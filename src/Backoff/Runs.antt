-- ===== src/Backoff/Runs.antt =====
-- A run of src/backoff.rs, and the theorem at a concrete input.
use kudu_rs.Backoff.{Backoff, FloatMath, next_backoff_ms}
use kudu_rs.Backoff.Bounds.{IsBackoff, Promised, next_backoff_ms-Promised}
use kudu_rs.Base.{arith, ltb, refl, true, ℕ, ◌*◌, ◌<◌, ◌^◌, ◌↔◌, ◌≡◌}

pub ltb_iff : (a b : ℕ) → (ltb a b ≡ true) ↔ (a < b)
ltb_iff a b = ground arith

-- Arithmetic where every draw is one.
abbrev pub ones : FloatMath (Unit {0})
ones = record {
  log2_ratio_less = λ max initial retries. ltb max (initial * 2 ^ retries);
  scale = λ n r. n;
  log2_ratio_less-iff = λ max initial retries h k l. ltb_iff max (initial * 2 ^ retries);
  scale_lower = λ n r h. omega arith;
  scale_upper = λ n r h. omega arith;
}

abbrev third_try : Backoff
third_try = record { initial = 100; max = 60000000; retries = 2 }

third_try-IsBackoff : IsBackoff third_try
third_try-IsBackoff = omega arith

wait_400 : (next_backoff_ms ones third_try tt).1 ≡ 400
unfolding next_backoff_ms
wait_400 = refl

next_backoff_ms-Promised_example : Promised ones third_try (next_backoff_ms ones third_try tt)
next_backoff_ms-Promised_example = next_backoff_ms-Promised ones third_try tt third_try-IsBackoff
