-- ===== src/MetaCache/Splice.antt =====
-- `splice_entries` of src/meta_cache.rs keeps the entries ordered.
use kudu_rs.Base.{All, List, [], false, true, ◌∷◌, ◌≡◌}
use kudu_rs.MetaCache.{
  Entry, partition_lower_bound, partition_upper_bound, skip_overlapping, splice_loop,
}
use kudu_rs.MetaCache.Order.{
  All-IsBefore_trans, IsBefore, IsBefore-trans, IsOrdered, IsProper, before, behind, bound_le,
  entry_case, overlaps,
}

module _ {M : Type 0} where
  All-skip_overlapping {ℓ} :
      (P : Entry M → Type ℓ) (added : Entry M) (es : List (Entry M))
      → All P es
      → All P (skip_overlapping added es)
  unfolding skip_overlapping
  All-skip_overlapping P added [] h = tt
  All-skip_overlapping P added (e ∷ es) h = elim (entry_case e added) [
    | before k _ ↦ rw (skip_overlapping, k) h
    | behind k _ ↦ rw (skip_overlapping, k) h
    | overlaps k _ _ ↦ rw (skip_overlapping, k) (All-skip_overlapping P added es h.1)
  ]

  pub IsOrdered-skip_overlapping :
      (added : Entry M) (es : List (Entry M)) → IsOrdered es → IsOrdered (skip_overlapping added es)
  unfolding skip_overlapping
  IsOrdered-skip_overlapping added [] h = tt
  IsOrdered-skip_overlapping added (e ∷ es) h = elim (entry_case e added) [
    | before k _ ↦ rw (skip_overlapping, k) h
    | behind k _ ↦ rw (skip_overlapping, k) h
    | overlaps k _ _ ↦ rw (skip_overlapping, k) (IsOrdered-skip_overlapping added es h.2)
  ]

  -- Every entry of the result is one of the existing or the new entries.
  pub All-splice_loop {ℓ} :
      (P : Entry M → Type ℓ) (existing new_entries : List (Entry M))
      → All P existing
      → All P new_entries
      → All P (splice_loop existing new_entries)
  unfolding splice_loop
  All-splice_loop P existing [] h k = h
  All-splice_loop P [] (n ∷ ns) h k = (k.0, All-splice_loop P [] ns tt k.1)
  All-splice_loop P (e ∷ es) (n ∷ ns) h k = elim (entry_case e n) [
    | before c _ ↦ rw (splice_loop, c) (h.0, All-splice_loop P es (n ∷ ns) h.1 k)
    | behind c _ ↦ rw (splice_loop, c) (k.0, All-splice_loop P (e ∷ es) ns h k.1)
    | overlaps c _ _ ↦
        rw (splice_loop, c)
          (k.0, All-splice_loop P (skip_overlapping n es) ns (All-skip_overlapping P n es h.1) k.1)
  ]

  -- An entry that follows one that is not before the new entry is not before it either.
  pub after-added :
      (e f n : Entry M)
      → IsBefore e f
      → IsProper f
      → bound_le (partition_upper_bound e) (partition_lower_bound n) ≡ false
      → bound_le (partition_upper_bound f) (partition_lower_bound n) ≡ true
      → ⊥
  after-added e f n b proper apart h = cc (IsBefore-trans e f n b proper h)

  -- What is left behind the entries that overlap the new one lies behind it.
  skip_overlapping-behind :
      (e n : Entry M) (es : List (Entry M))
      → bound_le (partition_upper_bound e) (partition_lower_bound n) ≡ false
      → All (IsBefore e) es
      → IsOrdered es
      → All (IsBefore n) (skip_overlapping n es)
  unfolding skip_overlapping
  skip_overlapping-behind e n [] apart b ordered = tt
  skip_overlapping-behind e n (f ∷ es) apart b ordered = elim (entry_case f n) [
    | before k h ↦ absurd (after-added e f n b.0 ordered.0 apart h)
    | behind k h ↦ rw (skip_overlapping, k) (h, All-IsBefore_trans n f es h ordered.0 ordered.1)
    | overlaps k _ _ ↦ rw (skip_overlapping, k) (skip_overlapping-behind e n es apart b.1 ordered.2)
  ]

  pub splice_loop-IsOrdered :
      (existing new_entries : List (Entry M))
      → IsOrdered existing
      → IsOrdered new_entries
      → IsOrdered (splice_loop existing new_entries)
  unfolding splice_loop
  splice_loop-IsOrdered existing [] h k = h
  splice_loop-IsOrdered [] (n ∷ ns) h k =
      (k.0, All-splice_loop (IsBefore n) [] ns tt k.1, splice_loop-IsOrdered [] ns tt k.2)
  splice_loop-IsOrdered (e ∷ es) (n ∷ ns) h k = elim (entry_case e n) [
    | before c b ↦
        rw (splice_loop, c)
          (
            h.0,
            All-splice_loop (IsBefore e) es (n ∷ ns) h.1 (b, All-IsBefore_trans e n ns b k.0 k.1),
            splice_loop-IsOrdered es (n ∷ ns) h.2 k,
          )
    | behind c b ↦
        rw (splice_loop, c)
          (
            k.0,
            All-splice_loop (IsBefore n) (e ∷ es) ns (b, All-IsBefore_trans n e es b h.0 h.1) k.1,
            splice_loop-IsOrdered (e ∷ es) ns h k.2,
          )
    | overlaps c apart _ ↦
        rw (splice_loop, c)
          (
            k.0,
            All-splice_loop (IsBefore n) (skip_overlapping n es) ns
                (skip_overlapping-behind e n es apart h.1 h.2) k.1,
            splice_loop-IsOrdered (skip_overlapping n es) ns (IsOrdered-skip_overlapping n es h.2)
                k.2,
          )
  ]
