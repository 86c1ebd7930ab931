-- ===== src/MetaCache/Covered.antt =====
-- A response leads to an entry for the key that was asked for: `add_tablet_locations` of
-- src/meta_cache.rs.
use kudu_rs.Base.{
  Bool, Bool-cases, List, [], ap, append-nil, false, if◌then◌else◌, inl, inr, length, ltb, not,
  refl, subst, sym, true, ℕ, ◌&&◌, ◌++◌, ◌∙◌, ◌∷◌, ◌≡◌, ◌⊎◌,
}
use kudu_rs.Bytes.{le_bytes, lt_bytes}
use kudu_rs.Bytes.Order.{le_bytes-empty, le_bytes_trans}
use kudu_rs.Key.Columns.{is_empty_key}
use kudu_rs.MetaCache.{Entry, non_covered_range, partition_lower_bound, partition_upper_bound}
use kudu_rs.MetaCache.Chain.{Chain, Chain-append, Follows}
use kudu_rs.MetaCache.Contiguous.{InOrder, end_of, last_end, lt_bytes-nonempty, no_gap-le, start_of}
use kudu_rs.MetaCache.Locations.{max_returned_table_locations}
use kudu_rs.MetaCache.Order.{bound_le, bound_le-false}
use kudu_rs.Tablet.{TabletPb}

-- What the master promises of a request for the tablets from a key on: they are in order, and the
-- first one is the last that starts at or before the key, or the first of all.
pub record IsResponse (key : List ℕ) (pbs : List TabletPb) : Type 0 where
  pub in_order : InOrder pbs
  pub second_behind :
      (front second : TabletPb) (rest : List TabletPb)
      → pbs ≡ front ∷ second ∷ rest
      → le_bytes (start_of second) key ≡ false

-- The last tablet ends behind where the first one starts.
last_end-behind :
    (key : List ℕ) (pb : TabletPb) (pbs : List TabletPb)
    → InOrder (pb ∷ pbs)
    → le_bytes (start_of pb) key ≡ false
    → bound_le (last_end (end_of pb) pbs) key ≡ false
last_end-behind key pb [] order h = elim (Bool-cases (bound_le (end_of pb) key)) [
  | inr k ↦ k
  | inl k ↦ cc (bound_le-false (end_of pb) (start_of pb) key order k)
]
last_end-behind key pb (next ∷ pbs) order h =
    last_end-behind key next pbs order.2 (start_behind (Bool-cases (le_bytes (start_of next) key)))
  where
    start_behind :
        (le_bytes (start_of next) key ≡ true) ⊎ (le_bytes (start_of next) key ≡ false)
        → le_bytes (start_of next) key ≡ false
    start_behind (inr k) = k
    start_behind (inl k) = cc (
        le_bytes_trans (start_of pb) (start_of next) key
          (bound_le-false (end_of pb) (start_of pb) (start_of next) order.0 order.1) k)

bound_le-nil : (u : List ℕ) → bound_le u [] ≡ false
bound_le-nil [] = refl
bound_le-nil (x ∷ u) = unfold le_bytes in refl

-- Where no range is added behind the last tablet, it ends behind the key.
pub upper-behind :
    (key : List ℕ) (pb : TabletPb) (pbs : List TabletPb) (upper : List ℕ)
    → IsResponse key (pb ∷ pbs)
    → upper ≡ last_end (end_of pb) pbs
    → (not (is_empty_key upper) && ltb (length (pb ∷ pbs)) max_returned_table_locations) ≡ false
    → bound_le upper key ≡ false
upper-behind key pb [] [] response ends h = refl
upper-behind key pb [] (x ∷ upper) response ends h = cc
upper-behind key pb (next ∷ pbs) upper response ends h =
    ap (λ (u : List ℕ). bound_le u key) ends
    ∙ last_end-behind key next pbs response.in_order.2 (response.second_behind pb next pbs refl)

module _ {M : Type 0} where
  abbrev pub IsCons : List (Entry M) → Type 0
  IsCons xs = (e : Entry M) × (es : List (Entry M)) × (xs ≡ e ∷ es)

  abbrev pub final : List ℕ → Bool → List (Entry M)
  final upper pushed = if pushed then non_covered_range upper [] ∷ [] else []

  pub add_final :
      (key lower : List ℕ) (xs : List (Entry M)) (upper : List ℕ) (pushed : Bool)
      → Chain lower xs upper
      → IsCons xs
      → (pushed ≡ true → is_empty_key upper ≡ false)
      → (pushed ≡ false → bound_le upper key ≡ false)
      → (to : List ℕ) × Chain lower (xs ++ final upper pushed) to
        × (bound_le to key ≡ false)
        × IsCons (xs ++ final upper pushed)
  unfolding partition_lower_bound partition_upper_bound
  add_final key lower xs upper true chain (e, es, is_cons) ends stops = (
    [],
    Chain-append lower xs upper (non_covered_range upper [] ∷ []) [] chain (refl, refl, tt, refl)
        (ends refl),
    refl,
    (
      e,
      es ++ non_covered_range upper [] ∷ [],
      ap (λ zs. zs ++ non_covered_range upper [] ∷ []) is_cons,
    ),
  )
  add_final key lower xs upper false chain is_cons ends stops = (
    upper,
    subst (λ (zs : List (Entry M)). Chain lower zs upper) (sym (append-nil xs)) chain,
    stops refl,
    subst IsCons (sym (append-nil xs)) is_cons,
  )

  abbrev pub initial : List ℕ → Bool → List (Entry M)
  initial lower pushed = if pushed then non_covered_range [] lower ∷ [] else []

  pub add_initial :
      (key lower : List ℕ) (xs : List (Entry M)) (upper : List ℕ)
      → Chain lower xs upper
      → IsCons xs
      → (from : List ℕ) × Chain from (initial lower (lt_bytes key lower) ++ xs) upper
        × (le_bytes from key ≡ true)
        × IsCons (initial lower (lt_bytes key lower) ++ xs)
  unfolding partition_lower_bound partition_upper_bound
  add_initial key lower xs upper chain (e, es, is_cons) = elim (Bool-cases (lt_bytes key lower)) [
    | inl before_all ↦ rw before_all (
      [],
      (
        refl,
        bound_le-nil lower,
        subst (Follows lower) (sym is_cons) (lt_bytes-nonempty key lower before_all),
        chain,
      ),
      le_bytes-empty key,
      (non_covered_range [] lower, xs, refl),
    )
    | inr not_before ↦
        rw not_before (lower, chain, no_gap-le key lower not_before, (e, es, is_cons))
  ]
