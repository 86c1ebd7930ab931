-- ===== src/Schema/Build.antt =====
-- What `SchemaBuilder::build` of src/schema.rs makes of the builder's columns.
use kudu_rs.Base.{
  Bool-cases, List, Option, Outcome, [], ap, append-nil, append_assoc, arith, err, false, get_elem?,
  if◌then◌else◌, inl, inr, invalid_argument, length, none, ok, panic, refl, some, subst, suc, sym,
  true, ℕ, ◌++◌, ◌+◌, ◌<◌, ◌>>=◌, ◌∙◌, ◌∷◌, ◌≡◌, ◌⊎◌,
}
use kudu_rs.Bytes.{eq_bytes, eq_bytes_self, eq_of_eq_bytes}
use kudu_rs.Schema.{Column, Schema, SchemaBuilder, build, build_loop, new, position_name, remove_at}
use mathlib.Core.List.{Perm, perm_middle}
use mathlib.Core.List.Perm

-- How often a name occurs, and the names of columns.
unfoldable pub count_name : List ℕ → List (List ℕ) → ℕ
count_name name [] = 0
count_name name (n ∷ ns) = if eq_bytes n name then suc (count_name name ns) else count_name name ns

unfoldable pub column_names : List Column → List (List ℕ)
column_names [] = []
column_names (c ∷ cs) = c.name ∷ column_names cs

-- The column at the position of a name, and the others.
record Found (name : List ℕ) (cs : List Column) (i : ℕ) : Type 0 where
  before : List Column
  found : Column
  after : List Column
  at : get_elem? cs i ≡ some found
  named : found.name ≡ name
  split : cs ≡ before ++ found ∷ after
  removed : remove_at i cs ≡ before ++ after

unfoldable Position : List ℕ → List Column → Option ℕ → Type 0
Position name cs none = count_name name (column_names cs) ≡ 0
Position name cs (some i) = Found name cs i

Found-tail :
    {name : List ℕ} (c : Column) {cs : List Column} {i : ℕ}
    → Found name cs i
    → Found name (c ∷ cs) (suc i)
unfolding remove_at
Found-tail c f = record {
  before = c ∷ f.before;
  found = f.found;
  after = f.after;
  at = f.at;
  named = f.named;
  split = ap (◌∷◌ c) f.split;
  removed = ap (◌∷◌ c) f.removed;
}

Found-head :
    {name : List ℕ} (c : Column) (cs : List Column)
    → eq_bytes c.name name ≡ true
    → Found name (c ∷ cs) 0
unfolding remove_at
Found-head c cs h = record {
  before = [];
  found = c;
  after = cs;
  at = refl;
  named = eq_of_eq_bytes _ _ h;
  split = refl;
  removed = refl;
}

Position-tail :
    (name : List ℕ) (c : Column) (cs : List Column) (o : Option ℕ)
    → eq_bytes c.name name ≡ false
    → Position name cs o
    → Position name (c ∷ cs) (elim o [ none ↦ none | some i ↦ some (suc i) ])
unfolding Position count_name column_names
Position-tail name c cs none h p = rw (h, p)
Position-tail name c cs (some i) h p = Found-tail c p

position_name-Position :
    (name : List ℕ) (cs : List Column) → Position name cs (position_name name cs)
unfolding position_name count_name column_names Position
position_name-Position name [] = refl
position_name-Position name (c ∷ cs) = elim (Bool-cases (eq_bytes c.name name)) [
  | inl h ↦ rw h (Found-head c cs h)
  | inr h ↦ rw h (Position-tail name c cs _ h (position_name-Position name cs))
]

-- What the loop makes of names and columns: the columns of these names in their order and the
-- others, or it fails at a name that occurs more often than columns have it.
unfoldable pub Built :
    List (List ℕ) → List Column → List Column → Outcome (List Column × List Column) → Type 0
Built names done cs panic = ⊥
Built names done cs (err e) =
    (e ≡ invalid_argument)
    × ((name : List ℕ) × (count_name name (column_names cs) < count_name name names))
Built names done cs (ok r) =
    (key : List Column) × (r.0 ≡ done ++ key) × (column_names key ≡ names) × Perm (key ++ r.1) cs

count-names_append :
    (name : List ℕ) (xs ys : List Column)
    → count_name name (column_names (xs ++ ys))
      ≡ count_name name (column_names xs) + count_name name (column_names ys)
unfolding count_name column_names
count-names_append name [] ys = omega arith
count-names_append name (c ∷ xs) ys = elim (Bool-cases (eq_bytes c.name name)) [
  | inl h ↦ rw h (omega (arith, count-names_append name xs ys))
  | inr h ↦ rw h (count-names_append name xs ys)
]

-- Taking a column out takes one of its names out.
count-without :
    (name : List ℕ) (before : List Column) (c : Column) (after : List Column)
    → count_name name (column_names (before ++ c ∷ after))
      ≡ count_name name (c.name ∷ column_names (before ++ after))
unfolding count_name column_names
count-without name before c after =
    rw (count-names_append name before (c ∷ after), count-names_append name before after)
      (elim (Bool-cases (eq_bytes c.name name)) [ inl h ↦ rw h (omega arith) | inr h ↦ rw h refl ])

count-cons_lt :
    (name n : List ℕ) (xs ys : List (List ℕ))
    → count_name name xs < count_name name ys
    → count_name name (n ∷ xs) < count_name name (n ∷ ys)
unfolding count_name
count-cons_lt name n xs ys h = elim (Bool-cases (eq_bytes n name)) [
  | inl e ↦ rw e (omega arith)
  | inr e ↦ rw e h
]

-- A name that is missing once the column is out is missing before.
less_with :
    {n : List ℕ} (name : List ℕ) (names : List (List ℕ)) (cs : List Column) {i : ℕ}
    (f : Found n cs i)
    → count_name name (column_names (f.before ++ f.after)) < count_name name names
    → count_name name (column_names cs) < count_name name (n ∷ names)
less_with name names cs f h =
    rw (f.split, count-without name f.before f.found f.after, f.named)
      (count-cons_lt name _ _ names h)

Built-pick :
    {name : List ℕ} (names : List (List ℕ)) (done cs : List Column) {i : ℕ} (f : Found name cs i)
    (r : Outcome (List Column × List Column))
    → Built names (done ++ f.found ∷ []) (f.before ++ f.after) r
    → Built (name ∷ names) done cs r
unfolding Built column_names
Built-pick names done cs f panic b = b
Built-pick names done cs f (err e) b = (b.0, (b.1.0, less_with b.1.0 names cs f b.1.1))
Built-pick names done cs f (ok r) b =
    let (key, done_key, key_names, p) = b in
    (
      f.found ∷ key,
      done_key ∙ append_assoc done (f.found ∷ []) key,
      rw (f.named, key_names) refl,
      subst (Perm (f.found ∷ key ++ r.1)) (sym f.split)
          (Perm.trans (Perm.cons f.found p) (Perm.symm (perm_middle f.before f.after))),
    )

Built-missing :
    (name : List ℕ) (names : List (List ℕ)) (done cs : List Column)
    → count_name name (column_names cs) ≡ 0
    → Built (name ∷ names) done cs (err invalid_argument)
unfolding Built count_name
Built-missing name names done cs h = (refl, (name, rw (eq_bytes_self name, h) (omega arith)))

-- One round of the loop, where the rounds after it are right.
build_step-Built :
    (name : List ℕ) (names : List (List ℕ)) (done cs : List Column) (o : Option ℕ)
    → ((d rest : List Column) → Built names d rest (build_loop names d rest))
    → Position name cs o
    → Built (name ∷ names) done cs (elim o [
      | none ↦ err invalid_argument
      | some idx ↦ elim (get_elem? cs idx) [
        | none ↦ panic
        | some c ↦ build_loop names (done ++ c ∷ []) (remove_at idx cs)
      ]
    ])
unfolding Position
build_step-Built name names done cs none later p = Built-missing name names done cs p
build_step-Built name names done cs (some idx) later f =
    rw (f.at, f.removed)
      (Built-pick names done cs f _ (later (done ++ f.found ∷ []) (f.before ++ f.after)))

build_loop-Built :
    (names : List (List ℕ)) (done cs : List Column) → Built names done cs (build_loop names done cs)
unfolding build_loop Built column_names
build_loop-Built [] done cs = ([], sym (append-nil done), refl, Perm.refl cs)
build_loop-Built (name ∷ names) done cs =
    build_step-Built name names done cs (position_name name cs) (build_loop-Built names)
      (position_name-Position name cs)

-- What `build` promises.
unfoldable pub BuiltSchema : SchemaBuilder → Outcome Schema → Type 0
BuiltSchema b panic = ⊥
BuiltSchema b (err e) =
    (e ≡ invalid_argument)
    × ((b.builder_primary_key ≡ [])
        ⊎ ((name : List ℕ) × (count_name name (column_names b.builder_columns)
              < count_name name b.builder_primary_key)))
BuiltSchema b (ok s) =
    (key : List Column) × (others : List Column) × (s ≡ new (key ++ others) (length key))
    × (column_names key ≡ b.builder_primary_key)
    × Perm (key ++ others) b.builder_columns

length-column_names : (cs : List Column) → length (column_names cs) ≡ length cs
unfolding column_names
length-column_names [] = refl
length-column_names (c ∷ cs) = ap suc (length-column_names cs)

BuiltSchema-bind :
    (b : SchemaBuilder) (r : Outcome (List Column × List Column))
    → Built b.builder_primary_key [] b.builder_columns r
    → BuiltSchema b (r >>= λ x. ok (new (x.0 ++ x.1) (length b.builder_primary_key)))
unfolding Built BuiltSchema
BuiltSchema-bind b panic h = h
BuiltSchema-bind b (err e) h = (h.0, inr h.1)
BuiltSchema-bind b (ok r) h =
    let (key, moved, key_names, p) = h in
    (key, r.1, rw (moved, sym key_names, length-column_names key) refl, key_names, p)

-- The built schema has the columns that the primary key names, in its order, before the other
-- columns of the builder; building fails with an invalid argument only if the primary key is empty
-- or names a column more often than the builder has columns of this name. It never panics.
pub build-BuiltSchema : (b : SchemaBuilder) → BuiltSchema b (build b)
unfolding build BuiltSchema
build-BuiltSchema b = from_fields b.builder_columns b.builder_primary_key
  where
    from_fields :
        (cs : List Column) (names : List (List ℕ))
        → let b : SchemaBuilder = record { builder_columns = cs; builder_primary_key = names } in
          BuiltSchema b (build b)
    from_fields cs [] = (refl, inl refl)
    from_fields cs (name ∷ names) =
        BuiltSchema-bind (record { builder_columns = cs; builder_primary_key = name ∷ names }) _
          (build_loop-Built (name ∷ names) [] cs)
