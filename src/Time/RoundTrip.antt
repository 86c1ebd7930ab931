-- ===== src/Time/RoundTrip.antt =====
-- `time_to_us` and `us_to_time` of src/util.rs against each other.
use kudu_rs.Base.{
  ap, arith, dec_lt, le→leb, lt→leb_false, ℕ, ◌%◌, ◌*◌, ◌+◌, ◌-◌, ◌/◌, ◌<◌, ◌^◌, ◌∙◌, ◌≡◌, ◌≤◌,
}
use kudu_rs.Time.{
  Duration, SystemTime, before_epoch, duration_of, micros, since_epoch, time_to_us, us_to_time,
}

-- A time of whole microseconds, which the bits of an `i64` can tell.
abbrev pub IsStored : SystemTime → Type 0
IsStored (since_epoch d) =
    (d.nanos < 1000000000) × (d.nanos % 1000 ≡ 0) × (d.secs * 1000000 + d.nanos / 1000 < 2 ^ 63)
IsStored (before_epoch d) =
    (d.nanos < 1000000000)
    × (d.nanos % 1000 ≡ 0)
    × (0 < d.secs * 1000000 + d.nanos / 1000)
    × (d.secs * 1000000 + d.nanos / 1000 ≤ 2 ^ 63)

micros-duration_of : (us : ℕ) → us < 2 ^ 64 → micros (duration_of us) ≡ us
unfolding micros duration_of
micros-duration_of us h = omega arith

pub time_to_us-us_to_time : (us : ℕ) → us < 2 ^ 64 → time_to_us (us_to_time us) ≡ us
unfolding time_to_us us_to_time
time_to_us-us_to_time us h = elim (dec_lt us (2 ^ 63)) [
  | yes below ↦ rw (lt→leb_false (2 ^ 63) us below) (micros-duration_of us h)
  | no above ↦ rw (le→leb (2 ^ 63) us (omega arith)) (
      ap (λ (x : ℕ). (2 ^ 64 - x) % 2 ^ 64) (micros-duration_of (2 ^ 64 - us) (omega arith))
      ∙ omega arith)
]

micros-exact :
    (d : Duration)
    → d.secs * 1000000 + d.nanos / 1000 ≤ 2 ^ 63
    → micros d ≡ d.secs * 1000000 + d.nanos / 1000
unfolding micros
micros-exact d h = omega arith

duration_of-micros :
    (d : Duration)
    → d.nanos < 1000000000
    → d.nanos % 1000 ≡ 0
    → d.secs * 1000000 + d.nanos / 1000 ≤ 2 ^ 63
    → duration_of (micros d) ≡ d
unfolding micros duration_of
duration_of-micros d h k l = ground arith

pub us_to_time-time_to_us : (t : SystemTime) → IsStored t → us_to_time (time_to_us t) ≡ t
unfolding time_to_us us_to_time
us_to_time-time_to_us (since_epoch d) h =
    let exact = micros-exact d (omega arith) in
    rw (lt→leb_false (2 ^ 63) (micros d) (omega (arith, exact)))
      (ap since_epoch (duration_of-micros d h.0 h.1 (omega arith)))
us_to_time-time_to_us (before_epoch d) h =
    let exact = micros-exact d h.3 in
    let us = (2 ^ 64 - micros d) % 2 ^ 64 in
    let distance : 2 ^ 64 - us ≡ micros d = omega (arith, exact) in
    rw (le→leb (2 ^ 63) us (omega (arith, exact))) (
      ap (λ (x : ℕ). before_epoch (duration_of x)) distance
      ∙ ap before_epoch (duration_of-micros d h.0 h.1 h.3))

-- The bits of an `i64` of microseconds are read back from the time that they stand for, and a time
-- of whole microseconds that an `i64` can tell, with fewer than a billion nanoseconds, from its
-- microseconds.
pub time_to_us_roundtrip :
    (us : ℕ) (t : SystemTime)
    → us < 2 ^ 64
    → IsStored t
    → (time_to_us (us_to_time us) ≡ us) × (us_to_time (time_to_us t) ≡ t)
time_to_us_roundtrip us t h stored = (time_to_us-us_to_time us h, us_to_time-time_to_us t stored)

pub time_to_us-lt : (t : SystemTime) → time_to_us t < 256 ^ 8
unfolding time_to_us micros
time_to_us-lt (since_epoch d) = omega arith
time_to_us-lt (before_epoch d) = omega arith
