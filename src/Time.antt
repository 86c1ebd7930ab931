-- ===== src/Time.antt =====
-- The times of src/util.rs: `SystemTime` and `Duration` of the standard library, and the microseconds
-- since 1970 by which a timestamp is stored.
pub mod RoundTrip
mod Runs
use kudu_rs.Base.{if◌then◌else◌, leb, ℕ, ◌%◌, ◌*◌, ◌+◌, ◌-◌, ◌/◌, ◌^◌}

pub record Duration : Type 0 where
  pub secs : ℕ
  pub nanos : ℕ

-- A time by its distance from `UNIX_EPOCH`, and the side on which it lies.
pub data SystemTime : Type 0 where
  since_epoch : Duration → SystemTime
  before_epoch : Duration → SystemTime

unfoldable pub duration_to_ms : Duration → ℕ
duration_to_ms d = (d.secs * 1000 + d.nanos / 1000000) % 2 ^ 64

-- The microseconds of a duration, as a `u64`.
unfoldable pub micros : Duration → ℕ
micros d = (d.secs * 1000000 + d.nanos / 1000) % 2 ^ 64

-- An `i64` is its two's complement pattern.
unfoldable pub time_to_us : SystemTime → ℕ
unfolding micros
time_to_us (since_epoch d) = micros d
time_to_us (before_epoch d) = (2 ^ 64 - micros d) % 2 ^ 64

-- `Duration::new(abs / 1000_000, (abs % 1000_000) as u32 * 1000)`
unfoldable pub duration_of : ℕ → Duration
duration_of abs = record { secs = abs / 1000000; nanos = abs % 1000000 * 1000 }

unfoldable pub us_to_time : ℕ → SystemTime
unfolding duration_of
us_to_time us =
    if leb (2 ^ 63) us
    then before_epoch (duration_of (2 ^ 64 - us))
    else since_epoch (duration_of us)
