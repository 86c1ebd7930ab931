-- ===== src/MetaCache/Merged.antt =====
-- The entries after `splice_entries` of src/meta_cache.rs, as a map from keys.
use kudu_rs.Base.{All, List, Option, Ordering, [], ap, ap₂, inl, inr, none, sym, ℕ, ◌∙◌, ◌∷◌, ◌≡◌}
use kudu_rs.MetaCache.{Entry, cmp_partition_key, skip_overlapping, splice_loop}
use kudu_rs.MetaCache.Kept.{
  apart_from_All, find_entry-behind, find_entry-hit, find_entry-miss, hit_case, kept, kept-apart,
  kept-behind, kept-nil, kept-nothing, kept-overlapping, kept-skip_overlapping, or_else,
}
use kudu_rs.MetaCache.Lookup.{find_entry}
use kudu_rs.MetaCache.Order.{
  All-IsBefore_trans, IsBefore, IsOrdered, before, behind, entry_case, overlaps,
}
use kudu_rs.MetaCache.Splice.{IsOrdered-skip_overlapping}

module _ {M : Type 0} where
  -- An entry in front of two lists that lead to the same entries.
  find_entry-front :
      (key : List ℕ) (e : Entry M) (es fs : List (Entry M)) (o : Option (Entry M))
      → find_entry key es ≡ or_else o (find_entry key fs)
      → (cmp_partition_key e key ≡ Ordering.eq → o ≡ none)
      → find_entry key (e ∷ es) ≡ or_else o (find_entry key (e ∷ fs))
  find_entry-front key e es fs o h absent = elim (hit_case key e) [
    | inl hit ↦
        find_entry-hit key e es hit ∙ sym (ap₂ or_else (absent hit) (find_entry-hit key e fs hit))
    | inr miss ↦
        find_entry-miss key e es miss ∙ h ∙ ap (or_else o) (sym (find_entry-miss key e fs miss))
  ]

  find_entry-new :
      (key : List ℕ) (n : Entry M) (ns es : List (Entry M)) (o : Option (Entry M))
      → find_entry key es ≡ or_else (find_entry key ns) o
      → find_entry key (n ∷ es) ≡ or_else (find_entry key (n ∷ ns)) o
  find_entry-new key n ns es o h = elim (hit_case key n) [
    | inl hit ↦
        find_entry-hit key n es hit
        ∙ sym (ap (λ (x : Option (Entry M)). or_else x o) (find_entry-hit key n ns hit))
    | inr miss ↦
        find_entry-miss key n es miss
        ∙ h
        ∙ ap (λ (x : Option (Entry M)). or_else x o) (sym (find_entry-miss key n ns miss))
  ]

  pub find_entry-splice_loop :
      (key : List ℕ) (existing new_entries : List (Entry M))
      → IsOrdered existing
      → IsOrdered new_entries
      → find_entry key (splice_loop existing new_entries)
        ≡ or_else (find_entry key new_entries) (find_entry key (kept new_entries existing))
  unfolding splice_loop
  find_entry-splice_loop key existing [] h k =
      unfold find_entry in ap (find_entry key) (sym (kept-nothing existing))
  find_entry-splice_loop key [] (n ∷ ns) h k =
      find_entry-new key n ns (splice_loop [] ns) (find_entry key (kept (n ∷ ns) [])) (
        find_entry-splice_loop key [] ns tt k.2
        ∙ ap (λ x. or_else (find_entry key ns) (find_entry key x))
            (kept-nil ns ∙ sym (kept-nil (n ∷ ns))))
  find_entry-splice_loop key (e ∷ es) (n ∷ ns) h k = elim (entry_case e n) [
    | before c b ↦
        let later : All (IsBefore e) (n ∷ ns) = (b, All-IsBefore_trans e n ns b k.0 k.1) in
        rw (splice_loop, c)
          (find_entry-front key e (splice_loop es (n ∷ ns)) (kept (n ∷ ns) es)
              (find_entry key (n ∷ ns)) (find_entry-splice_loop key es (n ∷ ns) h.2 k)
              (λ hit. find_entry-behind key e (n ∷ ns) hit later)
            ∙ ap (λ x. or_else (find_entry key (n ∷ ns)) (find_entry key x))
                (sym (kept-apart (n ∷ ns) e es (apart_from_All e (n ∷ ns) later))))
    | behind c b ↦
        rw (splice_loop, c)
          (find_entry-new key n ns (splice_loop (e ∷ es) ns)
            (find_entry key (kept (n ∷ ns) (e ∷ es)))
            (find_entry-splice_loop key (e ∷ es) ns h k.2
              ∙ ap (λ x. or_else (find_entry key ns) (find_entry key x))
                  (sym (kept-behind n ns (e ∷ es) (b, All-IsBefore_trans n e es b h.0 h.1)))))
    | overlaps c apart _ ↦
        rw (splice_loop, c)
          (find_entry-new key n ns (splice_loop (skip_overlapping n es) ns)
            (find_entry key (kept (n ∷ ns) (e ∷ es)))
            (find_entry-splice_loop key (skip_overlapping n es) ns
                (IsOrdered-skip_overlapping n es h.2) k.2
              ∙ ap (λ x. or_else (find_entry key ns) (find_entry key x))
                  (sym (
                    kept-overlapping n ns e es c ∙ kept-skip_overlapping e n ns es apart h.1 h.2))))
  ]
