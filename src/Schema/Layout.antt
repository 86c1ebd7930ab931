-- ===== src/Schema/Layout.antt =====
-- Where `Schema::new` of src/schema.rs puts the columns in a row.
use kudu_rs.Base.{
  Bool, List, [], ap, append-nil, append_assoc, arith, false, get_elem?, inl, inr, length, less,
  more, refl, same, some, suc, sym, take, trichotomy, true, zero, ℕ, ◌++◌, ◌+◌, ◌<◌, ◌^◌, ◌||◌, ◌∙◌,
  ◌∷◌, ◌≡◌, ◌≢◌, ◌≤◌, ◌⊎◌,
}
use kudu_rs.Base.Words.{add_usize}
use kudu_rs.Schema.{Column, Schema, new, new_loop, start}
use kudu_rs.Types.{size}
use mathlib.Core.Option.{some-injective}

-- The bytes of columns one behind the other, and their places from a first one on.
unfoldable pub width : List Column → ℕ
width [] = 0
width (c ∷ cs) = size c.data_type + width cs

unfoldable pub offsets_from : ℕ → List Column → List ℕ
offsets_from at [] = []
offsets_from at (c ∷ cs) = at ∷ offsets_from (at + size c.data_type) cs

unfoldable pub any_nullable : List Column → Bool
any_nullable [] = false
any_nullable (c ∷ cs) = c.is_nullable || any_nullable cs

||_assoc : (a b c : Bool) → ((a || b) || c) ≡ (a || (b || c))
||_assoc true b c = refl
||_assoc false b c = refl

||_false : (a : Bool) → (a || false) ≡ a
||_false true = refl
||_false false = refl

-- What the loop leaves alone.
new_loop-columns :
    (idx : ℕ) (cs : List Column) (s : Schema)
    → ((new_loop idx cs s).columns ≡ s.columns)
      × ((new_loop idx cs s).num_primary_key_columns ≡ s.num_primary_key_columns)
unfolding new_loop
new_loop-columns idx [] s = (refl, refl)
new_loop-columns idx (c ∷ cs) s = new_loop-columns (suc idx) cs _

new_loop-nullable :
    (idx : ℕ) (cs : List Column) (s : Schema)
    → (new_loop idx cs s).has_nullable_columns ≡ (s.has_nullable_columns || any_nullable cs)
unfolding new_loop any_nullable
new_loop-nullable idx [] s = sym (||_false s.has_nullable_columns)
new_loop-nullable idx (c ∷ cs) s =
    new_loop-nullable (suc idx) cs _ ∙ ||_assoc s.has_nullable_columns c.is_nullable _

new_loop-offsets :
    (idx : ℕ) (cs : List Column) (s : Schema)
    → s.row_size + width cs < 2 ^ 64
    → ((new_loop idx cs s).column_offsets ≡ s.column_offsets ++ offsets_from s.row_size cs)
      × ((new_loop idx cs s).row_size ≡ s.row_size + width cs)
unfolding new_loop offsets_from width
new_loop-offsets idx [] s h = (sym (append-nil s.column_offsets), omega arith)
new_loop-offsets idx (c ∷ cs) s h =
    let at : add_usize s.row_size (size c.data_type) ≡ s.row_size + size c.data_type =
      omega arith in
    let widths : s.row_size + size c.data_type + width cs
        ≡ s.row_size + (size c.data_type + width cs) =
      omega arith in
    let rest = new_loop-offsets (suc idx) cs _ (omega (arith, at, h)) in
    (rest.0 ∙ rw at (append_assoc s.column_offsets (s.row_size ∷ []) _), rest.1 ∙ (rw at widths))

pub new-columns : (cs : List Column) (n : ℕ) → (new cs n).columns ≡ cs
unfolding new
new-columns cs n = (new_loop-columns 0 cs (start cs n)).0

pub new-num_primary_key_columns :
    (cs : List Column) (n : ℕ) → (new cs n).num_primary_key_columns ≡ n
unfolding new
new-num_primary_key_columns cs n = (new_loop-columns 0 cs (start cs n)).1

pub new-has_nullable_columns :
    (cs : List Column) (n : ℕ) → (new cs n).has_nullable_columns ≡ any_nullable cs
unfolding new
new-has_nullable_columns cs n = new_loop-nullable 0 cs (start cs n)

pub new-column_offsets :
    (cs : List Column) (n : ℕ) → width cs < 2 ^ 64 → (new cs n).column_offsets ≡ offsets_from 0 cs
unfolding new
new-column_offsets cs n h = (new_loop-offsets 0 cs (start cs n) (omega (arith, h))).0

pub new-row_size : (cs : List Column) (n : ℕ) → width cs < 2 ^ 64 → (new cs n).row_size ≡ width cs
unfolding new
new-row_size cs n h = (new_loop-offsets 0 cs (start cs n) (omega (arith, h))).1 ∙ omega arith

-- A column stands behind those before it.
offsets_from-at :
    (at : ℕ) (cs : List Column) (i : ℕ)
    → i < length cs
    → get_elem? (offsets_from at cs) i ≡ some (at + width (take i cs))
unfolding offsets_from width
offsets_from-at at [] i h = absurd (omega arith)
offsets_from-at at (c ∷ cs) zero h = ap some (omega arith)
offsets_from-at at (c ∷ cs) (suc i) h =
    offsets_from-at (at + size c.data_type) cs i (omega arith) ∙ ap some (omega arith)

pub take-suc-width :
    (cs : List Column) (i : ℕ) (c : Column)
    → get_elem? cs i ≡ some c
    → (width (take (suc i) cs) ≡ width (take i cs) + size c.data_type) × (i < length cs)
unfolding width
take-suc-width [] i c h = cc
take-suc-width (d ∷ cs) zero c h =
    let same_size : size d.data_type ≡ size c.data_type =
      ap (λ (x : Column). size x.data_type) (some-injective d c h) in
    (omega (arith, same_size), omega arith)
take-suc-width (d ∷ cs) (suc i) c h =
    let r = take-suc-width cs i c h in (omega (arith, r.0), omega (arith, r.1))

-- Where columns, at most the last `usize` of bytes wide, stand in a schema.
pub record LaidOut (cs : List Column) (s : Schema) : Type 0 where
  pub has_columns : s.columns ≡ cs
  pub has_row_size : s.row_size ≡ width cs
  pub has_nullable : s.has_nullable_columns ≡ any_nullable cs
  pub column_at :
      (i : ℕ) (c : Column)
      → get_elem? cs i ≡ some c
      → (at : ℕ) × (get_elem? s.column_offsets i ≡ some at)
        × (at ≡ width (take i cs))
        × (at + size c.data_type ≡ width (take (suc i) cs))
        × (at + size c.data_type ≤ s.row_size)

width-take : (cs : List Column) (i : ℕ) → width (take i cs) ≤ width cs
unfolding width
width-take cs zero = omega arith
width-take [] (suc i) = omega arith
width-take (c ∷ cs) (suc i) = omega (arith, width-take cs i)

-- `Schema::new` keeps the columns and puts each, without gaps or overlaps, behind those before it
-- and inside the row, whose size is the sum of theirs, as long as that is a usize.
pub new-LaidOut : (cs : List Column) (n : ℕ) → width cs < 2 ^ 64 → LaidOut cs (new cs n)
new-LaidOut cs n h = record {
  has_columns = new-columns cs n;
  has_row_size = new-row_size cs n h;
  has_nullable = new-has_nullable_columns cs n;
  column_at = λ i c found.
      let (next, inside) = take-suc-width cs i c found in
      (
        width (take i cs),
        rw (new-column_offsets cs n h) (offsets_from-at 0 cs i inside ∙ ap some (omega arith)),
        refl,
        sym next,
        omega (arith, next, width-take cs (suc i), new-row_size cs n h),
      );
}

pub width-take_mono : (cs : List Column) (i j : ℕ) → i ≤ j → width (take i cs) ≤ width (take j cs)
unfolding width
width-take_mono cs zero j h = omega arith
width-take_mono cs (suc i) zero h = absurd (omega arith)
width-take_mono [] (suc i) (suc j) h = omega arith
width-take_mono (c ∷ cs) (suc i) (suc j) h = omega (arith, width-take_mono cs i j (omega arith))

-- Two columns of a schema have no byte in common.
pub LaidOut-apart :
    {cs : List Column} {s : Schema} (i j : ℕ) (c d : Column) (a b : ℕ)
    → LaidOut cs s
    → i ≢ j
    → get_elem? cs i ≡ some c
    → get_elem? cs j ≡ some d
    → get_elem? s.column_offsets i ≡ some a
    → get_elem? s.column_offsets j ≡ some b
    → (b + size d.data_type ≤ a) ⊎ (a + size c.data_type ≤ b)
LaidOut-apart {cs} i j c d a b laid ne at_i at_j offset_i offset_j =
    let (a', found_a, start_a, end_a, _) = laid.column_at i c at_i in
    let (b', found_b, start_b, end_b, _) = laid.column_at j d at_j in
    let same_a : a ≡ a' = some-injective a a' (sym offset_i ∙ found_a) in
    let same_b : b ≡ b' = some-injective b b' (sym offset_j ∙ found_b) in
    elim (trichotomy i j) [
      | less h ↦ inr (
          omega (
            arith,
            same_a,
            same_b,
            end_a,
            start_b,
            width-take_mono cs (suc i) j (omega (arith, h)),
          ))
      | same e ↦ absurd (ne e)
      | more h ↦ inl (
          omega (
            arith,
            same_a,
            same_b,
            end_b,
            start_a,
            width-take_mono cs (suc j) i (omega (arith, h)),
          ))
    ]

pub any_nullable-at :
    (cs : List Column) (i : ℕ) (c : Column)
    → get_elem? cs i ≡ some c
    → c.is_nullable ≡ true
    → any_nullable cs ≡ true
unfolding any_nullable
any_nullable-at [] i c h nullable = cc
any_nullable-at (d ∷ cs) zero c h nullable =
    let same_column = ap (λ (x : Column). x.is_nullable) (some-injective d c h) in
    rw (same_column, nullable) refl
any_nullable-at (d ∷ cs) (suc i) c h nullable =
    or_true d.is_nullable (any_nullable-at cs i c h nullable)
  where
    or_true : (b : Bool) {x : Bool} → x ≡ true → (b || x) ≡ true
    or_true true e = refl
    or_true false e = e
