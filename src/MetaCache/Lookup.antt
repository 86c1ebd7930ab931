-- ===== src/MetaCache/Lookup.antt =====
-- `extract_cached` of src/meta_cache.rs finds what a search from the front finds.
use kudu_rs.Base.{
  All, List, Option, Ordering, Outcome, [], ap, arith, dec_lt, get_elem?, get_elem?-inside, length,
  none, ok, panic, refl, some, suc, sym, true, zero, ℕ, ◌<◌, ◌>>=◌, ◌∙◌, ◌∷◌, ◌≡◌, ◌≢◌, ◌≤◌,
}
use kudu_rs.Base.Search.{
  All-get, Finds, Found, IsMonotone, IsMonotone-Splits, Splits, at_index, binary_search_by,
  binary_search_by-Finds, missing, rank,
}
use kudu_rs.Bytes.{le_bytes}
use kudu_rs.MetaCache.{
  Entry, ExtractCachedResult, MetaCache, cmp_partition_key, extract_cached, extractor,
  partition_lower_bound, partition_upper_bound, value,
}
use kudu_rs.MetaCache.Order.{
  IsBefore, IsOrdered, IsProper, above_key, below_key, bound_le, bound_le-le, bound_le-false,
  holds_key, key_case,
}
use mathlib.Core.Option.{some-injective}

module _ {M : Type 0} where
  -- The first entry that holds a key.
  unfoldable pub find_entry : List ℕ → List (Entry M) → Option (Entry M)
  find_entry key [] = none
  find_entry key (e ∷ es) = elim (cmp_partition_key e key) [
    | Ordering.eq ↦ some e
    | _ ↦ find_entry key es
  ]

  pub cmp_partition_key-below :
      (e : Entry M) (key : List ℕ)
      → bound_le (partition_upper_bound e) key ≡ true
      → cmp_partition_key e key ≡ Ordering.lt
  unfolding cmp_partition_key
  cmp_partition_key-below e key h = rw (cmp_partition_key, h) refl

  -- An entry before one that is not above the key is below it.
  pub IsBefore-below :
      (e f : Entry M) (key : List ℕ)
      → IsBefore e f
      → le_bytes (partition_lower_bound f) key ≡ true
      → cmp_partition_key e key ≡ Ordering.lt
  IsBefore-below e f key b h =
      cmp_partition_key-below e key
        (bound_le-le (partition_upper_bound e) (partition_lower_bound f) key b h)

  rank_key :
      (e f : Entry M) (key : List ℕ)
      → IsBefore e f
      → IsProper f
      → rank (cmp_partition_key e key) ≤ rank (cmp_partition_key f key)
  rank_key e f key b proper = elim (key_case f key) [
    | above_key h _ ↦ rw h (rank-le (cmp_partition_key e key))
    | holds_key h _ k ↦ rw (IsBefore-below e f key b k) (omega arith)
    | below_key h k ↦
        rw
          (IsBefore-below e f key b
            (bound_le-false (partition_upper_bound f) (partition_lower_bound f) key proper k))
          (omega arith)
  ]
    where
      rank-le : (o : Ordering) → rank o ≤ 2
      rank-le Ordering.lt = omega arith
      rank-le Ordering.eq = omega arith
      rank-le Ordering.gt = omega arith

  IsOrdered-ranks :
      (e : Entry M) (key : List ℕ) (es : List (Entry M))
      → All (IsBefore e) es
      → IsOrdered es
      → All (λ f. rank (cmp_partition_key e key) ≤ rank (cmp_partition_key f key)) es
  IsOrdered-ranks e key [] b ordered = tt
  IsOrdered-ranks e key (f ∷ es) b ordered =
      (rank_key e f key b.0 ordered.0, IsOrdered-ranks e key es b.1 ordered.2)

  IsOrdered-IsMonotone :
      (key : List ℕ) (es : List (Entry M))
      → IsOrdered es
      → IsMonotone (λ e. cmp_partition_key e key) es
  IsOrdered-IsMonotone key [] ordered = tt
  IsOrdered-IsMonotone key (e ∷ es) ordered =
      (IsOrdered-ranks e key es ordered.1 ordered.2, IsOrdered-IsMonotone key es ordered.2)

  pub find_entry-at :
      (key : List ℕ) (es : List (Entry M)) (i : ℕ) (e : Entry M)
      → IsOrdered es
      → get_elem? es i ≡ some e
      → cmp_partition_key e key ≡ Ordering.eq
      → find_entry key es ≡ some e
  unfolding find_entry
  find_entry-at key [] i e ordered at h = cc
  find_entry-at key (f ∷ es) zero e ordered at h =
      let equal = some-injective f e at in
      rw (find_entry, ap (λ (x : Entry M). cmp_partition_key x key) equal ∙ h) at
  find_entry-at key (f ∷ es) (suc i) e ordered at h = elim (key_case e key) [
    | below_key k _ ↦ cc
    | above_key k _ ↦ cc
    | holds_key _ _ k ↦
        rw (find_entry, IsBefore-below f e key (All-get (IsBefore f) es i e at ordered.1) k)
          (find_entry-at key es i e ordered.2 at h)
  ]

  pub find_entry-none :
      (key : List ℕ) (es : List (Entry M))
      → ((i : ℕ) (e : Entry M) → get_elem? es i ≡ some e → cmp_partition_key e key ≢ Ordering.eq)
      → find_entry key es ≡ none
  unfolding find_entry
  find_entry-none key [] h = refl
  find_entry-none key (e ∷ es) h = elim (key_case e key) [
    | holds_key k _ _ ↦ absurd (h 0 e refl k)
    | below_key k _ ↦ rw (find_entry, k) (find_entry-none key es (λ i. h (suc i)))
    | above_key k _ ↦ rw (find_entry, k) (find_entry-none key es (λ i. h (suc i)))
  ]

  -- What a search returns, as an entry.
  abbrev entry_of : List (Entry M) → Found → Option (Entry M)
  entry_of es (missing i) = none
  entry_of es (at_index i) = get_elem? es i

  Finds-find_entry :
      (key : List ℕ) (es : List (Entry M)) (low high : ℕ) (r : Found)
      → IsOrdered es
      → Splits (λ e. cmp_partition_key e key) es low high
      → Finds (λ e. cmp_partition_key e key) es low high r
      → entry_of es r ≡ find_entry key es
  Finds-find_entry key es low high (missing i) ordered splits finds =
      sym (find_entry-none key es not_equal)
    where
      not_equal :
          (j : ℕ) (e : Entry M) → get_elem? es j ≡ some e → cmp_partition_key e key ≢ Ordering.eq
      not_equal j e at h = elim (dec_lt j low) [
        | yes k ↦ cc (splits.before j e at k)
        | no k ↦ cc (splits.behind j e at (omega (arith, finds, k)))
      ]
  Finds-find_entry key es low high (at_index i) ordered splits finds =
      let (e, at) = get_elem?-inside es i (omega (arith, finds, splits.inside)) in
      at ∙ sym (find_entry-at key es i e ordered at (splits.between i e at finds.0 finds.1))

  abbrev IsInside : List (Entry M) → Found → Type 0
  IsInside es (missing i) = Unit {0}
  IsInside es (at_index i) = i < length es

  Finds-IsInside :
      (test : Entry M → Ordering) (es : List (Entry M)) (low high : ℕ) (r : Found)
      → high ≤ length es
      → Finds test es low high r
      → IsInside es r
  Finds-IsInside test es low high (missing i) h finds = tt
  Finds-IsInside test es low high (at_index i) h finds = omega (arith, finds)

  search-find_entry :
      (key : List ℕ) (es : List (Entry M))
      → IsOrdered es
      → (entry_of es (binary_search_by (λ e. cmp_partition_key e key) es) ≡ find_entry key es)
        × IsInside es (binary_search_by (λ e. cmp_partition_key e key) es)
  search-find_entry key es ordered =
      let splits =
        IsMonotone-Splits (λ e. cmp_partition_key e key) es (IsOrdered-IsMonotone key es ordered) in
      let finds = binary_search_by-Finds _ es _ _ splits in
      (
        Finds-find_entry key es _ _ _ ordered splits finds,
        Finds-IsInside (λ e. cmp_partition_key e key) es _ _ _ splits.inside finds,
      )

module _ {M T : Type 0} where
  -- What `extract_cached` returns of the entry for the key.
  abbrev pub extracted_of :
      (Entry M → Outcome T) → Option (Entry M) → Outcome (ExtractCachedResult T)
  extracted_of extract_from none = ok extractor
  extracted_of extract_from (some e) = do v ← extract_from e; ok (value v)

  extracted-entry_of :
      (extract_from : Entry M → Outcome T) (es : List (Entry M)) (o : Option (Entry M)) (r : Found)
      → IsInside es r
      → entry_of es r ≡ o
      → (elim r [
        | missing i ↦ ok extractor
        | at_index i ↦ elim (get_elem? es i) [
          | none ↦ panic
          | some e ↦ do v ← extract_from e; ok (value v)
        ]
      ])
        ≡ extracted_of extract_from o
  extracted-entry_of extract_from es o (missing i) inside h = ap (extracted_of extract_from) h
  extracted-entry_of extract_from es o (at_index i) inside h =
      let (e, at) = get_elem?-inside es i inside in
      rw at (ap (extracted_of extract_from) (sym at ∙ h))

  -- On ordered entries the binary search of `extract_cached` returns what is extracted from the
  -- first entry that holds the key, and nothing if there is none.
  pub extract_cached-find_entry :
      (cache : MetaCache M) (key : List ℕ) (extract_from : Entry M → Outcome T)
      → IsOrdered cache.entries
      → extract_cached cache key extract_from
        ≡ extracted_of extract_from (find_entry key cache.entries)
  unfolding extract_cached
  extract_cached-find_entry cache key extract_from ordered =
      let located = search-find_entry key cache.entries ordered in
      extracted-entry_of extract_from cache.entries (find_entry key cache.entries) _ located.1
        located.0
