-- ===== src/Schema/Names.antt =====
-- Finding a column of src/schema.rs by its name.
use kudu_rs.Base.{
  Bool-cases, List, Option, [], ap, arith, drop, get_elem?, if◌then◌else◌, inl, inr, none, refl,
  some, subst, suc, sym, ℕ, ◌+◌, ◌∙◌, ◌∷◌, ◌≡◌,
}
use kudu_rs.Bytes.{eq_bytes, eq_of_eq_bytes}
use kudu_rs.Schema.{Column, Schema, column_index, lookup, new, new_loop, start}
use kudu_rs.Schema.Build.{column_names, count_name}
use mathlib.Core.Option.{some-injective}

-- The index of the last of the columns that has a name, if one has it; else what was known before.
data Last (name : List ℕ) (idx : ℕ) (cs : List Column) (before : Option ℕ) (o : Option ℕ)
    : Type 0 where
  nowhere : count_name name (column_names cs) ≡ 0 → o ≡ before → Last name idx cs before o
  last :
      (j : ℕ) (c : Column)
      → o ≡ some (idx + j)
      → get_elem? cs j ≡ some c
      → c.name ≡ name
      → count_name name (column_names (drop (suc j) cs)) ≡ 0
      → Last name idx cs before o

Last-tail :
    (name : List ℕ) (idx : ℕ) (c : Column) (cs : List Column) (before o : Option ℕ)
    → Last name (suc idx) cs (if eq_bytes c.name name then some idx else before) o
    → Last name idx (c ∷ cs) before o
unfolding count_name column_names
Last-tail name idx c cs before o (last j d at found named later) =
    last (suc j) d (at ∙ ap some (omega arith)) found named later
Last-tail name idx c cs before o (nowhere missing at) = elim (Bool-cases (eq_bytes c.name name)) [
  | inl h ↦ last 0 c (at ∙ rw h (ap some (omega arith))) refl (eq_of_eq_bytes _ _ h) missing
  | inr h ↦ nowhere (rw (h, missing) refl) (at ∙ rw h refl)
]

new_loop-Last :
    (name : List ℕ) (idx : ℕ) (cs : List Column) (s : Schema)
    → Last name idx cs
        (lookup name s.columns_by_name)
        (lookup name (new_loop idx cs s).columns_by_name)
unfolding new_loop lookup count_name column_names
new_loop-Last name idx [] s = nowhere refl refl
new_loop-Last name idx (c ∷ cs) s = Last-tail name idx c cs _ _ (new_loop-Last name (suc idx) cs _)

-- What looking a name up answers: nothing if no column has it, else the last that has it.
unfoldable pub LastNamed : List ℕ → List Column → Option ℕ → Type 0
LastNamed name cs none = count_name name (column_names cs) ≡ 0
LastNamed name cs (some i) =
    (c : Column) × (get_elem? cs i ≡ some c)
    × (c.name ≡ name)
    × (count_name name (column_names (drop (suc i) cs)) ≡ 0)

LastNamed-Last :
    (name : List ℕ) (cs : List Column) (o : Option ℕ) → Last name 0 cs none o → LastNamed name cs o
unfolding LastNamed
LastNamed-Last name cs none (nowhere missing at) = missing
LastNamed-Last name cs (some i) (nowhere missing at) = cc
LastNamed-Last name cs none (last j c at found named later) = cc
LastNamed-Last name cs (some i) (last j c at found named later) =
    let same_index : i ≡ j = some-injective i j (at ∙ ap some (omega arith)) in
    subst (λ (k : ℕ). LastNamed name cs (some k)) (sym same_index) (c, found, named, later)

-- `column_index` finds nothing if no column has the name, and the last column that has it otherwise.
pub column_index-LastNamed :
    (name : List ℕ) (cs : List Column) (n : ℕ) → LastNamed name cs (column_index (new cs n) name)
unfolding column_index new lookup
column_index-LastNamed name cs n = LastNamed-Last name cs _ (new_loop-Last name 0 cs (start cs n))
