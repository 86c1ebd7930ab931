-- ===== src/MetaCache/Point.antt =====
-- Where `splice_entries` of src/meta_cache.rs starts.
use kudu_rs.Base.{
  All, List, Ordering, [], ap, arith, drop, get_elem?, get_elem?-inside, length, ok, refl, some,
  suc, take, zero, ℕ, ◌++◌, ◌<◌, ◌∙◌, ◌∷◌, ◌≡◌, ◌≤◌,
}
use kudu_rs.Base.Search.{
  Finds, Found, IsMonotone, IsMonotone-Splits, Splits, at_index, binary_search_by,
  binary_search_by-Finds, missing, rank, search_loop,
}
use kudu_rs.MetaCache.{
  Entry, MetaCache, cmp_entry, skip_overlapping, splice_entries, splice_loop, splice_point,
}
use kudu_rs.MetaCache.Kept.{kept, or_else}
use kudu_rs.MetaCache.Lookup.{find_entry}
use kudu_rs.MetaCache.Merged.{find_entry-splice_loop}
use kudu_rs.MetaCache.Order.{
  IsBefore, IsBefore-trans, IsOrdered, IsProper, before, behind, entry_case, overlaps,
}
use kudu_rs.MetaCache.Splice.{after-added, splice_loop-IsOrdered}

-- The place that a search found.
abbrev place : Found → ℕ
place (at_index i) = i
place (missing i) = i

module _ {M : Type 0} where
  cmp_entry-before : (a b : Entry M) → IsBefore a b → cmp_entry a b ≡ Ordering.lt
  unfolding cmp_entry
  cmp_entry-before a b h = rw (cmp_entry, h) refl

  rank_entry :
      (e f n : Entry M)
      → IsBefore e f
      → IsProper e
      → IsProper f
      → rank (cmp_entry e n) ≤ rank (cmp_entry f n)
  rank_entry e f n b proper_e proper_f = elim (entry_case e n) [
    | before c _ ↦ rw c (omega arith)
    | overlaps c apart _ ↦ elim (entry_case f n) [
      | before _ h ↦ absurd (after-added e f n b proper_f apart h)
      | behind d _ ↦ rw (c, d) (omega arith)
      | overlaps d _ _ ↦ rw (c, d) (omega arith)
    ]
    | behind c h ↦ elim (entry_case f n) [
      | before d k ↦ cc (cmp_entry-before e n (IsBefore-trans e f n b proper_f k))
      | behind d _ ↦ rw (c, d) (omega arith)
      | overlaps _ _ k ↦ cc (IsBefore-trans n e f h proper_e b)
    ]
  ]

  rank_entries :
      (e n : Entry M) (es : List (Entry M))
      → IsProper e
      → All (IsBefore e) es
      → IsOrdered es
      → All (λ f. rank (cmp_entry e n) ≤ rank (cmp_entry f n)) es
  rank_entries e n [] proper b ordered = tt
  rank_entries e n (f ∷ es) proper b ordered =
      (rank_entry e f n b.0 proper ordered.0, rank_entries e n es proper b.1 ordered.2)

  entries-IsMonotone :
      (n : Entry M) (es : List (Entry M)) → IsOrdered es → IsMonotone (λ e. cmp_entry e n) es
  entries-IsMonotone n [] ordered = tt
  entries-IsMonotone n (e ∷ es) ordered =
      (rank_entries e n es ordered.0 ordered.1 ordered.2, entries-IsMonotone n es ordered.2)

  -- At most one of the entries overlaps another entry.
  abbrev pub AtMostOne : List (Entry M) → Entry M → Type 0
  AtMostOne es n =
      (i j : ℕ) (e f : Entry M)
      → get_elem? es i ≡ some e
      → get_elem? es j ≡ some f
      → cmp_entry e n ≡ Ordering.eq
      → cmp_entry f n ≡ Ordering.eq
      → i ≡ j

  Finds-place :
      (n : Entry M) (es : List (Entry M)) (low high : ℕ) (r : Found)
      → Splits (λ e. cmp_entry e n) es low high
      → AtMostOne es n
      → Finds (λ e. cmp_entry e n) es low high r
      → place r ≡ low
  Finds-place n es low high (missing i) splits one finds = finds.0
  Finds-place n es low high (at_index i) splits one finds =
      let (e, at_i) = get_elem?-inside es i (omega (arith, finds, splits.inside)) in
      let (f, at_low) = get_elem?-inside es low (omega (arith, finds, splits.inside)) in
      one i low e f at_i at_low (splits.between i e at_i finds.0 finds.1)
        (splits.between low f at_low (omega arith) (omega (arith, finds)))

  -- The entries before the place are before the new entry, so the loop would pass over them.
  take-splice_loop :
      (n : Entry M) (ns es : List (Entry M)) (at : ℕ)
      → at ≤ length es
      → ((i : ℕ) (e : Entry M) → get_elem? es i ≡ some e → i < at → cmp_entry e n ≡ Ordering.lt)
      → take at es ++ splice_loop (drop at es) (n ∷ ns) ≡ splice_loop es (n ∷ ns)
  unfolding splice_loop
  take-splice_loop n ns es zero h before_all = refl
  take-splice_loop n ns [] (suc at) h before_all = absurd (omega arith)
  take-splice_loop n ns (e ∷ es) (suc at) h before_all =
      rw (splice_loop, before_all 0 e refl (omega arith))
        (ap (◌∷◌ e) (
          take-splice_loop n ns es at (omega arith)
            (λ i f at_i below. before_all (suc i) f at_i (omega arith))))

  splice_point-place :
      (n : Entry M) (es : List (Entry M))
      → splice_point es n ≡ place (binary_search_by (λ e. cmp_entry e n) es)
  unfolding splice_point
  splice_point-place n es = refl

  -- Where at most one existing entry overlaps the first new one, `splice_entries` merges all entries.
  pub splice_entries-splice_loop :
      (cache : MetaCache M) (n : Entry M) (ns : List (Entry M))
      → IsOrdered cache.entries
      → AtMostOne cache.entries n
      → splice_entries cache (n ∷ ns)
        ≡ ok (record cache { entries = splice_loop cache.entries (n ∷ ns) })
  unfolding splice_entries
  splice_entries-splice_loop cache n ns ordered one =
      let es = cache.entries in
      let splits = IsMonotone-Splits (λ e. cmp_entry e n) es (entries-IsMonotone n es ordered) in
      let finds = binary_search_by-Finds _ es _ _ splits in
      let at = splice_point-place n es ∙ Finds-place n es _ _ _ splits one finds in
      ap (λ (merged : List (Entry M)). ok (record cache { entries = merged }))
        (ap (λ (i : ℕ). take i es ++ splice_loop (drop i es) (n ∷ ns)) at
          ∙ take-splice_loop n ns es _ (omega (arith, splits.ordered, splits.inside)) splits.before)

  -- Splicing ordered entries, at least one, into ordered entries of which at most one overlaps the
  -- first new one succeeds: the entries stay ordered, and a key leads to the new entry that holds it,
  -- or else to the old entry that holds it, if this overlaps no new entry.
  pub splice_entries-find_entry :
      (cache : MetaCache M) (n : Entry M) (ns : List (Entry M))
      → IsOrdered cache.entries
      → IsOrdered (n ∷ ns)
      → AtMostOne cache.entries n
      → (cache' : MetaCache M) × (splice_entries cache (n ∷ ns) ≡ ok cache')
        × IsOrdered cache'.entries
        × ((key : List ℕ)
            → find_entry key cache'.entries
              ≡ or_else (find_entry key (n ∷ ns)) (find_entry key (kept (n ∷ ns) cache.entries)))
  splice_entries-find_entry cache n ns ordered new_ordered one = (
    record cache { entries = splice_loop cache.entries (n ∷ ns) },
    splice_entries-splice_loop cache n ns ordered one,
    splice_loop-IsOrdered cache.entries (n ∷ ns) ordered new_ordered,
    λ key. find_entry-splice_loop key cache.entries (n ∷ ns) ordered new_ordered,
  )

  merged_at : List (Entry M) → Entry M → ℕ → List (Entry M)
  merged_at es n at = take at es ++ splice_loop (drop at es) (n ∷ [])

  place_second :
      (stale second n : Entry M)
      → cmp_entry second n ≡ Ordering.eq
      → splice_point (stale ∷ second ∷ []) n ≡ 1
  unfolding splice_point binary_search_by search_loop
  place_second stale second n h = rw (splice_point, search_loop, h) refl

  merge_second :
      (stale second n : Entry M)
      → cmp_entry second n ≡ Ordering.eq
      → merged_at (stale ∷ second ∷ []) n 1 ≡ stale ∷ n ∷ []
  unfolding merged_at splice_loop skip_overlapping
  merge_second stale second n h = rw (splice_loop, h) refl

  -- Of two entries that both overlap the only new one, and that are all the cache has,
  -- `splice_entries` removes only the second.
  pub splice_entries-stale :
      (cache : MetaCache M) (stale second n : Entry M)
      → cache.entries ≡ stale ∷ second ∷ []
      → cmp_entry stale n ≡ Ordering.eq
      → cmp_entry second n ≡ Ordering.eq
      → splice_entries cache (n ∷ []) ≡ ok (record cache { entries = stale ∷ n ∷ [] })
  unfolding splice_entries merged_at
  splice_entries-stale cache stale second n has h k =
      ap (λ (merged : List (Entry M)). ok (record cache { entries = merged }))
        (ap (λ es. merged_at es n (splice_point es n)) has
          ∙ ap (merged_at (stale ∷ second ∷ []) n) (place_second stale second n k)
          ∙ merge_second stale second n k)
