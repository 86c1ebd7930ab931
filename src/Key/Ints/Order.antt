-- ===== src/Key/Ints/Order.antt =====
-- Integer columns of src/key.rs: what is written is read back, and compares as the integers do.
use kudu_rs.Base.{
  List, Ordering, ap, ap₂, arith, compare, compare-gt, compare-lt, compare_self, length, less, more,
  ok, refl, same, suc, sym, trichotomy, zero, ℕ, ◌%◌, ◌*◌, ◌++◌, ◌+◌, ◌/◌, ◌<◌, ◌^◌, ◌∙◌, ◌∷◌, ◌≡◌,
}
use kudu_rs.ByteOrder.{read_be, to_be}
use kudu_rs.Bytes.{cmp_bytes, then_cmp, then_cmp_assoc}
use native.Mathlib.Nat.{
  pow-suc, one-le-pow, mul-add-div_right, div-lt_iff_lt-mul, mod-eq_of_lt, mod-lt,
  mul-add-mod_self_right, div-add-mod',
}

abbrev pub base : ℕ → ℕ
base n = 256 ^ n

base_pos : (n : ℕ) → 0 < base n
base_pos n = one-le-pow n 256 (omega arith)

pub length-to_be : (n x : ℕ) → length (to_be n x) ≡ n
unfolding to_be
length-to_be zero x = refl
length-to_be (suc n) x = ap suc (length-to_be n x)

-- Only the low bytes are written.
to_be-low : (n q r : ℕ) → to_be n (q * base n + r) ≡ to_be n r
unfolding to_be
to_be-low zero q r = refl
to_be-low (suc n) q r = ap₂ ◌∷◌ top (ap (to_be n) regroup ∙ to_be-low n (q * 256) r)
  where
    regroup : q * base (suc n) + r ≡ q * 256 * base n + r
    regroup = omega (arith, ap (λ (t : ℕ). q * t) (pow-suc 256 n))

    top : (q * base (suc n) + r) / base n % 256 ≡ r / base n % 256
    top =
        rw (regroup, mul-add-div_right (base_pos n) (q * 256) r)
          (mul-add-mod_self_right q 256 (r / base n))

-- A number of `n + 1` bytes is its top byte and the rest.
record Split (n x : ℕ) : Type 0 where
  top : ℕ
  low : ℕ
  whole : x ≡ top * base n + low
  top-lt : top < 256
  low-lt : low < base n
  bytes : to_be (suc n) x ≡ top ∷ to_be n low

split : (n x : ℕ) → x < base (suc n) → Split n x
unfolding to_be
split n x h = record {
  top = x / base n;
  low = x % base n;
  whole = sym (div-add-mod' x (base n));
  top-lt = small;
  low-lt = mod-lt x (base_pos n);
  bytes =
      ap₂ ◌∷◌ (mod-eq_of_lt small)
        (ap (to_be n) (sym (div-add-mod' x (base n))) ∙ to_be-low n (x / base n) (x % base n));
}
  where
    small : x / base n < 256
    small = (div-lt_iff_lt-mul (base_pos n)).1 (omega (arith, pow-suc 256 n))

pub read_be-to_be :
    (n x acc : ℕ) (rest : List ℕ)
    → x < base n
    → read_be n acc (to_be n x ++ rest) ≡ ok (acc * base n + x)
unfolding read_be
read_be-to_be zero x acc rest h = unfold to_be in ap ok (omega arith)
read_be-to_be (suc n) x acc rest h =
    let s = split n x h in
    rw s.bytes (
      read_be-to_be n s.low (acc * 256 + s.top) rest s.low-lt
      ∙ ap ok (omega (arith, s.whole, ap (λ (t : ℕ). acc * t) (pow-suc 256 n))))

compare-digits :
    (p a b c d : ℕ)
    → c < p
    → d < p
    → compare (a * p + c) (b * p + d) ≡ then_cmp (compare a b) (compare c d)
compare-digits p a b c d hc hd = elim (trichotomy a b) [
  | less h ↦ rw (compare-lt a b h) (compare-lt _ _ (digit a b c d h hc))
  | same e ↦ rw (e, compare_self b) (ground arith)
  | more h ↦ rw (compare-gt a b h) (compare-gt _ _ (digit b a d c h hd))
]
  where
    digit : (a b c d : ℕ) → a < b → c < p → a * p + c < b * p + d
    digit a b c d h hc = grind arith

pub cmp_bytes-to_be :
    (n x y : ℕ) (r s : List ℕ)
    → x < base n
    → y < base n
    → cmp_bytes (to_be n x ++ r) (to_be n y ++ s) ≡ then_cmp (compare x y) (cmp_bytes r s)
unfolding cmp_bytes
cmp_bytes-to_be zero zero zero r s hx hy = unfold to_be in refl
cmp_bytes-to_be zero (suc x) y r s hx hy = absurd (omega arith)
cmp_bytes-to_be zero x (suc y) r s hx hy = absurd (omega arith)
cmp_bytes-to_be (suc n) x y r s hx hy =
    let a = split n x hx in
    let b = split n y hy in
    rw (a.bytes, b.bytes)
      (ap (then_cmp (compare a.top b.top)) (cmp_bytes-to_be n a.low b.low r s a.low-lt b.low-lt)
        ∙ sym (then_cmp_assoc (compare a.top b.top) (compare a.low b.low) (cmp_bytes r s))
        ∙ ap (λ (o : Ordering). then_cmp o (cmp_bytes r s))
            (sym (compare-digits (base n) a.top b.top a.low b.low a.low-lt b.low-lt)
              ∙ sym (ap₂ compare a.whole b.whole)))
