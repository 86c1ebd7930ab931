-- ===== src/Backoff/Bounds.antt =====
-- The durations of src/backoff.rs: they double up to the maximum, and nothing overflows.
use kudu_rs.Backoff.{Backoff, FloatMath, next_backoff_ms}
use kudu_rs.Base.{
  Bool-cases, ap, arith, dec_lt, if◌then◌else◌, inl, inr, leb, refl, subst, sym, true, ℕ, ◌%◌, ◌*◌,
  ◌+◌, ◌<◌, ◌^◌, ◌↔◌, ◌∙◌, ◌≡◌, ◌≤◌,
}
use native.Mathlib.Nat.{mod-eq_of_lt, pow-le-pow_right}

pub record IsBackoff (b : Backoff) : Type 0 where
  pub initial_pos : 0 < b.initial
  pub initial_bound : b.initial < 2 ^ 32
  pub max_bound : b.max < 2 ^ 32
  pub retries_bound : b.retries ≤ 32

le-mul : (i t : ℕ) → 0 < i → t ≤ i * t
le-mul i t h = grind arith

-- The multiplication on `u64` is exact where the product is at most the maximum.
mul-exact : (i t m : ℕ) → 0 < i → i * t ≤ m → m < 2 ^ 32 → (i * (t % 2 ^ 64)) % 2 ^ 64 ≡ i * t
mul-exact i t m pos le small =
    ap (λ (x : ℕ). (i * x) % 2 ^ 64) (mod-eq_of_lt (omega (arith, le-mul i t pos)))
    ∙ mod-eq_of_lt (omega arith)

-- No more than 32 doublings stay below the maximum.
few_retries : (i r m : ℕ) → 0 < i → i * 2 ^ r ≤ m → m < 2 ^ 32 → r < 32
few_retries i r m pos le small = elim (dec_lt r 32) [
  | yes h ↦ h
  | no h ↦ absurd (
      omega (
        arith,
        le-mul i (2 ^ r) pos,
        pow-le-pow_right {n = 2} (omega arith) {i = 32} {j = r} (omega arith),
      ))
]

-- `cmp::min(max, duration)`
abbrev capped : ℕ → ℕ → ℕ
capped max duration = if leb max duration then max else duration

capped_bounds :
    (max low duration : ℕ)
    → low ≤ max
    → low ≤ duration
    → duration ≤ 2 * low
    → (capped max duration ≤ max) × (low ≤ capped max duration) × (capped max duration ≤ 2 * low)
capped_bounds max low duration h k l = ground arith

module _ {R : Type 0} (math : FloatMath R) where
  ratio :
      (b : Backoff)
      → IsBackoff b
      → (math.log2_ratio_less b.max b.initial b.retries ≡ true)
        ↔ (b.max < b.initial * 2 ^ b.retries)
  ratio b valid =
      math.log2_ratio_less-iff b.max b.initial b.retries valid.max_bound valid.initial_pos
        valid.initial_bound

  -- The duration without the wrap-around.
  next-exact :
      (b : Backoff) (rand : R)
      → IsBackoff b
      → b.initial * 2 ^ b.retries ≤ b.max
      → next_backoff_ms math b rand ≡ (
        record b { retries = b.retries + 1 },
        capped b.max (math.scale (b.initial * 2 ^ b.retries) rand),
      )
  unfolding next_backoff_ms
  next-exact b rand valid le = elim (Bool-cases (math.log2_ratio_less b.max b.initial b.retries)) [
    | inl above ↦ absurd (omega (arith, (ratio b valid).0 above))
    | inr not_less ↦
        rw
          (
            next_backoff_ms,
            not_less,
            mul-exact b.initial (2 ^ b.retries) b.max valid.initial_pos le valid.max_bound,
          )
          (ap
            (λ (r : ℕ). (
              record b { retries = r },
              capped b.max (math.scale (b.initial * 2 ^ b.retries) rand),
            ))
            (mod-eq_of_lt (omega (arith, valid.retries_bound))))
  ]

  -- What a call promises of the state it leaves and of its duration.
  abbrev pub Promised : Backoff → Backoff × ℕ → Type 0
  Promised b next =
      IsBackoff next.0
      × (next.1 ≤ b.max)
      × (b.max < b.initial * 2 ^ b.retries → (next.0 ≡ b) × (next.1 ≡ b.max))
      × (b.initial * 2 ^ b.retries ≤ b.max
          → (next.0 ≡ record b { retries = b.retries + 1 })
            × (b.initial * 2 ^ b.retries ≤ next.1)
            × (next.1 ≤ 2 * (b.initial * 2 ^ b.retries)))

  at_most :
      (b : Backoff) (rand : R)
      → IsBackoff b
      → b.initial * 2 ^ b.retries ≤ b.max
      → Promised b (next_backoff_ms math b rand)
  at_most b rand valid le =
      let scaled = math.scale (b.initial * 2 ^ b.retries) rand in
      let small : b.initial * 2 ^ b.retries < 2 ^ 53 = omega (arith, le, valid.max_bound) in
      let kept =
        capped_bounds b.max (b.initial * 2 ^ b.retries) scaled le
          (math.scale_lower (b.initial * 2 ^ b.retries) rand small)
          (math.scale_upper (b.initial * 2 ^ b.retries) rand small) in
      subst (Promised b) (sym (next-exact b rand valid le)) (
        (record {
          initial_pos = valid.initial_pos;
          initial_bound = valid.initial_bound;
          max_bound = valid.max_bound;
          retries_bound =
              omega
                (arith, few_retries b.initial b.retries b.max valid.initial_pos le valid.max_bound);
        }),
        kept.0,
        (λ above. absurd (omega arith)),
        (λ _. (refl, kept.1, kept.2)),
      )

  -- A valid backoff stays valid, so it never doubles more than 32 times, and waits at most its maximum.
  -- Once the doubled duration is past the maximum, it waits the maximum and does not change; until
  -- then it counts the call, and waits from the doubled duration up to twice that.
  pub next_backoff_ms-Promised :
      (b : Backoff) (rand : R) → IsBackoff b → Promised b (next_backoff_ms math b rand)
  unfolding next_backoff_ms
  next_backoff_ms-Promised b rand valid = elim (dec_lt b.max (b.initial * 2 ^ b.retries)) [
    | no h ↦ at_most b rand valid (omega arith)
    | yes h ↦
        subst (Promised b) (sym (at_maximum h))
          (valid, omega arith, (λ _. (refl, refl)), (λ below. absurd (omega arith)))
  ]
    where
      at_maximum : b.max < b.initial * 2 ^ b.retries → next_backoff_ms math b rand ≡ (b, b.max)
      at_maximum h = rw (next_backoff_ms, (ratio b valid).1 h) refl
