-- ===== src/Time/Runs.antt =====
-- A run of src/util.rs, and the theorem at a concrete input.
use kudu_rs.Base.{arith, refl, ◌-◌, ◌^◌, ◌≡◌}
use kudu_rs.Time.{SystemTime, before_epoch, time_to_us, us_to_time}
use kudu_rs.Time.RoundTrip.{time_to_us_roundtrip}

-- 1.5 seconds before 1970.
abbrev early : SystemTime
early = before_epoch (record { secs = 1; nanos = 500000000 })

early_us : time_to_us early ≡ 2 ^ 64 - 1500000
unfolding time_to_us
early_us = refl

time_to_us_roundtrip_example :
    (time_to_us (us_to_time 7) ≡ 7) × (us_to_time (time_to_us early) ≡ early)
time_to_us_roundtrip_example = time_to_us_roundtrip 7 early (omega arith) (omega arith)
