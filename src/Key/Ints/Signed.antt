-- ===== src/Key/Ints/Signed.antt =====
-- Signed integer columns of src/key.rs: flipping the sign bit makes the order of the patterns that of
-- the integers.
use kudu_rs.Base.{
  List, Ordering, [], ap, ap₂, arith, compare, compare-gt, compare-lt, dec_lt, drop,
  drop-append_length, if◌then◌else◌, length, le→ltb_false, ltb, lt→ltb, ok, refl, suc, sym, zero, ℕ,
  ◌*◌, ◌++◌, ◌+◌, ◌-◌, ◌<◌, ◌^◌, ◌∙◌, ◌≡◌, ◌≤◌,
}
use kudu_rs.Base.Bits.{bit_xor-top}
use kudu_rs.ByteOrder.{BigEndian, to_be}
use kudu_rs.Bytes.{cmp_bytes, then_cmp}
use kudu_rs.Key.Ints.{decode_int, encode_int, flip_sign}
use kudu_rs.Key.Ints.Order.{base, cmp_bytes-to_be, length-to_be, read_be-to_be}
use native.Mathlib.Nat.{pow-suc}
use native.Mathlib.Numerals.{towards_suc}

-- The order of signed integers of `n` bytes, on their patterns: negative ones, whose top bit is set,
-- come first.
unfoldable pub cmp_signed : ℕ → ℕ → ℕ → Ordering
cmp_signed n x y =
    let sign = 2 ^ (8 * n - 1) in
    if ltb x sign
    then if ltb y sign then compare x y else Ordering.gt
    else if ltb y sign
    then Ordering.lt
    else compare x y

-- The place of the sign bit of `m + 1` bytes.
abbrev sign : ℕ → ℕ
sign m = 8 * m + 7

pow_eight : (k : ℕ) → 2 ^ (k + 8) ≡ 256 * 2 ^ k
pow_eight k = simp towards_suc (omega arith)

base-sign : (m : ℕ) → 2 ^ suc (sign m) ≡ base (suc m)
base-sign zero = refl
base-sign (suc m) =
    ap (λ (t : ℕ). 2 ^ t) shift
    ∙ pow_eight (suc (sign m))
    ∙ omega (arith, base-sign m, pow-suc 256 (suc m))
  where
    shift : suc (sign (suc m)) ≡ suc (sign m) + 8
    shift = omega arith

sign_bit : (m : ℕ) → 8 * suc m - 1 ≡ sign m
sign_bit m = omega arith

pub record Flipped (m x f : ℕ) : Type 0 where
  pub range : f < base (suc m)
  pub positive : x < 2 ^ sign m → f ≡ x + 2 ^ sign m
  pub negative : 2 ^ sign m ≤ x → f + 2 ^ sign m ≡ x

pub flip_sign-Flipped : (m x : ℕ) → x < base (suc m) → Flipped m x (flip_sign (suc m) x)
unfolding flip_sign
flip_sign-Flipped m x h =
    let flip = bit_xor-top (sign m) x (rw base-sign h) in
    rw sign_bit (record {
      range = elim (dec_lt x (2 ^ sign m)) [
        | yes low ↦ omega (arith, flip.0 low, base-sign m, pow-suc 2 (sign m))
        | no high ↦ omega (arith, flip.1 (omega arith), base-sign m, pow-suc 2 (sign m))
      ];
      positive = flip.0;
      negative = flip.1;
    })

compare-flip_sign :
    (m x y : ℕ)
    → x < base (suc m)
    → y < base (suc m)
    → compare (flip_sign (suc m) x) (flip_sign (suc m) y) ≡ cmp_signed (suc m) x y
unfolding cmp_signed
compare-flip_sign m x y hx hy = rw sign_bit (elim (dec_lt x (2 ^ sign m)) [
  | yes px ↦ elim (dec_lt y (2 ^ sign m)) [
    | yes py ↦
        rw (lt→ltb x (2 ^ sign m) px, lt→ltb y (2 ^ sign m) py, fx.positive px, fy.positive py)
          (shift x y (2 ^ sign m))
    | no py ↦
        rw (lt→ltb x (2 ^ sign m) px, le→ltb_false y (2 ^ sign m) (omega arith))
          (compare-gt _ _ (
            omega
              (arith, fx.positive px, fy.negative (omega arith), base-sign m, pow-suc 2 (sign m))))
  ]
  | no px ↦ elim (dec_lt y (2 ^ sign m)) [
    | yes py ↦
        rw (le→ltb_false x (2 ^ sign m) (omega arith), lt→ltb y (2 ^ sign m) py)
          (compare-lt _ _ (
            omega
              (arith, fy.positive py, fx.negative (omega arith), base-sign m, pow-suc 2 (sign m))))
    | no py ↦
        rw (le→ltb_false x (2 ^ sign m) (omega arith), le→ltb_false y (2 ^ sign m) (omega arith))
          (sym (shift (flip_sign (suc m) x) (flip_sign (suc m) y) (2 ^ sign m))
            ∙ ap₂ compare (fx.negative (omega arith)) (fy.negative (omega arith)))
  ]
])
  where
    fx : Flipped m x (flip_sign (suc m) x)
    fx = flip_sign-Flipped m x hx

    fy : Flipped m y (flip_sign (suc m) y)
    fy = flip_sign-Flipped m y hy

    shift : (a b p : ℕ) → compare (a + p) (b + p) ≡ compare a b
    shift a b p = ground arith

flip_sign_twice : (m x : ℕ) → x < base (suc m) → flip_sign (suc m) (flip_sign (suc m) x) ≡ x
flip_sign_twice m x h =
    let f = flip_sign-Flipped m x h in
    let g = flip_sign-Flipped m (flip_sign (suc m) x) f.range in
    elim (dec_lt x (2 ^ sign m)) [
      | yes low ↦ omega (arith, f.positive low, g.negative (omega (arith, f.positive low)))
      | no high ↦ omega (
        arith,
        f.negative (omega arith),
        g.positive (omega (arith, f.negative (omega arith), base-sign m, pow-suc 2 (sign m))),
      )
    ]

module _ (big_endian : BigEndian) where
  -- An integer of one byte or more that is appended to any buffer adds that many bytes, which are
  -- read back as this integer, whatever bytes follow them.
  pub decode_int-encode_int :
      (n x : ℕ) (buf : List ℕ)
      → 1 ≤ n
      → x < 256 ^ n
      → (e : List ℕ) × (encode_int big_endian n x buf ≡ buf ++ e)
        × (length e ≡ n)
        × ((rest : List ℕ) → decode_int big_endian n (e ++ rest) ≡ ok (rest, x))
  unfolding encode_int decode_int
  decode_int-encode_int zero x buf pos h = absurd (omega arith)
  decode_int-encode_int (suc m) x buf pos h = (
    e,
    ap (◌++◌ buf) (big_endian.writes (suc m) f),
    length-to_be (suc m) f,
    λ rest.
        rw
          (
            big_endian.reads (suc m) (e ++ rest),
            read_be-to_be (suc m) f 0 rest (flip_sign-Flipped m x h).range,
          )
          (ap₂ (λ (r : List ℕ) (y : ℕ). ok (r, y)) (dropped rest)
            (ap (flip_sign (suc m)) (omega arith) ∙ flip_sign_twice m x h)),
  )
    where
      f : ℕ
      f = flip_sign (suc m) x

      e : List ℕ
      e = to_be (suc m) f

      dropped : (rest : List ℕ) → drop (suc m) (e ++ rest) ≡ rest
      dropped rest =
          ap (λ (t : ℕ). drop t (e ++ rest)) (sym (length-to_be (suc m) f))
          ∙ drop-append_length e rest

  -- The encodings of integers of the same size, at least one byte, compare as the signed integers
  -- do, whatever follows them, and where these are equal as what follows.
  pub cmp_bytes-encode_int :
      (n x y : ℕ) (r s : List ℕ)
      → 1 ≤ n
      → x < 256 ^ n
      → y < 256 ^ n
      → cmp_bytes (encode_int big_endian n x [] ++ r) (encode_int big_endian n y [] ++ s)
        ≡ then_cmp (cmp_signed n x y) (cmp_bytes r s)
  unfolding encode_int
  cmp_bytes-encode_int zero x y r s pos hx hy = absurd (omega arith)
  cmp_bytes-encode_int (suc m) x y r s pos hx hy =
      ap₂ (λ (a b : List ℕ). cmp_bytes (a ++ r) (b ++ s))
        (big_endian.writes (suc m) (flip_sign (suc m) x))
        (big_endian.writes (suc m) (flip_sign (suc m) y))
      ∙ cmp_bytes-to_be (suc m) (flip_sign (suc m) x) (flip_sign (suc m) y) r s
          (flip_sign-Flipped m x hx).range (flip_sign-Flipped m y hy).range
      ∙ ap (λ (o : Ordering). then_cmp o (cmp_bytes r s)) (compare-flip_sign m x y hx hy)
