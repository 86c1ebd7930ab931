-- ===== src/Key/Rows/Times.antt =====
-- Stored timestamps compare as the numbers they are stored as.
use kudu_rs.Base.{
  arith, compare, dec_lt, false, le→leb, le→ltb_false, lt→leb_false, lt→ltb, ℕ, ◌-◌, ◌<◌, ◌^◌, ◌∙◌,
  ◌≡◌,
}
use kudu_rs.Key.Ints.Signed.{cmp_signed}
use kudu_rs.Key.Rows.{cmp_duration, cmp_time, is_empty_duration}
use kudu_rs.Time.{duration_of, us_to_time}

cmp-duration_of : (x y : ℕ) → cmp_duration (duration_of x) (duration_of y) ≡ compare x y
unfolding cmp_duration duration_of
cmp-duration_of x y = ground arith

-- A negative number has a distance from 1970.
is_empty_duration-duration_of : (x : ℕ) → 0 < x → is_empty_duration (duration_of x) ≡ false
unfolding duration_of
is_empty_duration-duration_of x h = ground arith

pub cmp_time-us_to_time :
    (x y : ℕ)
    → x < 256 ^ 8
    → y < 256 ^ 8
    → cmp_time (us_to_time x) (us_to_time y) ≡ cmp_signed 8 x y
unfolding cmp_time us_to_time cmp_signed
cmp_time-us_to_time x y hx hy = elim (dec_lt x (2 ^ 63)) [
  | yes px ↦ elim (dec_lt y (2 ^ 63)) [
    | yes py ↦
        rw
          (
            lt→leb_false (2 ^ 63) x px,
            lt→leb_false (2 ^ 63) y py,
            lt→ltb x (2 ^ 63) px,
            lt→ltb y (2 ^ 63) py,
          )
          (cmp-duration_of x y)
    | no py ↦
        rw
          (
            lt→leb_false (2 ^ 63) x px,
            le→leb (2 ^ 63) y (omega arith),
            lt→ltb x (2 ^ 63) px,
            le→ltb_false y (2 ^ 63) (omega arith),
          )
          (ground (arith, is_empty_duration-duration_of (2 ^ 64 - y) (omega arith)))
  ]
  | no px ↦ elim (dec_lt y (2 ^ 63)) [
    | yes py ↦
        rw
          (
            le→leb (2 ^ 63) x (omega arith),
            lt→leb_false (2 ^ 63) y py,
            le→ltb_false x (2 ^ 63) (omega arith),
            lt→ltb y (2 ^ 63) py,
          )
          (ground (arith, is_empty_duration-duration_of (2 ^ 64 - x) (omega arith)))
    | no py ↦
        rw
          (
            le→leb (2 ^ 63) x (omega arith),
            le→leb (2 ^ 63) y (omega arith),
            le→ltb_false x (2 ^ 63) (omega arith),
            le→ltb_false y (2 ^ 63) (omega arith),
          )
          (cmp-duration_of (2 ^ 64 - y) (2 ^ 64 - x) ∙ ground arith)
  ]
]
