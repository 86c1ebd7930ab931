-- ===== src/MetaCache/Kept.antt =====
-- Which keys `splice_entries` of src/meta_cache.rs leads to which entries.
use kudu_rs.Base.{
  All, Bool, List, Option, Ordering, [], ap, false, if◌then◌else◌, inl, inr, none, refl, some, sym,
  true, ℕ, ◌||◌, ◌∙◌, ◌∷◌, ◌≡◌, ◌≢◌, ◌⊎◌,
}
use kudu_rs.MetaCache.{
  Entry, cmp_entry, cmp_partition_key, partition_lower_bound, partition_upper_bound,
  skip_overlapping,
}
use kudu_rs.MetaCache.Lookup.{IsBefore-below, find_entry}
use kudu_rs.MetaCache.Order.{
  All-IsBefore_trans, IsBefore, IsOrdered, above_key, before, behind, below_key, bound_le,
  entry_case, holds_key, key_case, overlaps,
}
use kudu_rs.MetaCache.Splice.{after-added}

abbrev pub is_eq : Ordering → Bool
is_eq Ordering.eq = true
is_eq _ = false

abbrev pub or_else {ℓ} : {A : Type ℓ} → Option A → Option A → Option A
or_else none o = o
or_else (some a) o = some a

module _ {M : Type 0} where
  pub overlaps_any : List (Entry M) → Entry M → Bool
  overlaps_any [] e = false
  overlaps_any (n ∷ ns) e = is_eq (cmp_entry e n) || overlaps_any ns e

  -- The existing entries that overlap no new entry.
  unfoldable pub kept : List (Entry M) → List (Entry M) → List (Entry M)
  unfolding overlaps_any
  kept new_entries [] = []
  kept new_entries (e ∷ es) =
      if overlaps_any new_entries e then kept new_entries es else e ∷ kept new_entries es

  -- An entry before or behind another one does not overlap it.
  pub before-apart : (a b : Entry M) → IsBefore a b → is_eq (cmp_entry a b) ≡ false
  before-apart a b h = elim (entry_case a b) [
    | before c _ ↦ rw c refl
    | behind c _ ↦ rw c refl
    | overlaps c k _ ↦ cc
  ]

  pub behind-apart : (a b : Entry M) → IsBefore b a → is_eq (cmp_entry a b) ≡ false
  behind-apart a b h = elim (entry_case a b) [
    | before c _ ↦ rw c refl
    | behind c _ ↦ rw c refl
    | overlaps c _ k ↦ cc
  ]

  pub apart_from_All :
      (e : Entry M) (ns : List (Entry M)) → All (IsBefore e) ns → overlaps_any ns e ≡ false
  unfolding overlaps_any
  apart_from_All e [] h = refl
  apart_from_All e (n ∷ ns) h = rw (before-apart e n h.0) (apart_from_All e ns h.1)

  pub kept-behind :
      (n : Entry M) (ns es : List (Entry M)) → All (IsBefore n) es → kept (n ∷ ns) es ≡ kept ns es
  unfolding kept
  kept-behind n ns [] h = refl
  kept-behind n ns (e ∷ es) h = rw (behind-apart e n h.0, kept-behind n ns es h.1) refl

  pub kept-nothing : (es : List (Entry M)) → kept [] es ≡ es
  unfolding kept
  kept-nothing [] = refl
  kept-nothing (e ∷ es) = ap (◌∷◌ e) (kept-nothing es)

  pub kept-apart :
      (ns : List (Entry M)) (e : Entry M) (es : List (Entry M))
      → overlaps_any ns e ≡ false
      → kept ns (e ∷ es) ≡ e ∷ kept ns es
  unfolding kept
  kept-apart ns e es h = rw h refl

  pub kept-overlapping :
      (n : Entry M) (ns : List (Entry M)) (e : Entry M) (es : List (Entry M))
      → cmp_entry e n ≡ Ordering.eq
      → kept (n ∷ ns) (e ∷ es) ≡ kept (n ∷ ns) es
  unfolding kept
  kept-overlapping n ns e es h = rw h refl

  pub kept-nil : (ns : List (Entry M)) → kept ns [] ≡ []
  unfolding kept
  kept-nil ns = refl

  pub kept-skip_overlapping :
      (e n : Entry M) (ns es : List (Entry M))
      → bound_le (partition_upper_bound e) (partition_lower_bound n) ≡ false
      → All (IsBefore e) es
      → IsOrdered es
      → kept (n ∷ ns) es ≡ kept ns (skip_overlapping n es)
  unfolding skip_overlapping
  kept-skip_overlapping e n ns [] apart b ordered = kept-nil (n ∷ ns) ∙ sym (kept-nil ns)
  kept-skip_overlapping e n ns (f ∷ es) apart b ordered = elim (entry_case f n) [
    | before k h ↦ absurd (after-added e f n b.0 ordered.0 apart h)
    | behind k h ↦
        rw (skip_overlapping, k)
          (kept-behind n ns (f ∷ es) (h, All-IsBefore_trans n f es h ordered.0 ordered.1))
    | overlaps k _ _ ↦
        rw (skip_overlapping, k)
          (kept-overlapping n ns f es k ∙ kept-skip_overlapping e n ns es apart b.1 ordered.2)
  ]

  pub find_entry-hit :
      (key : List ℕ) (e : Entry M) (es : List (Entry M))
      → cmp_partition_key e key ≡ Ordering.eq
      → find_entry key (e ∷ es) ≡ some e
  unfolding find_entry
  find_entry-hit key e es h = rw (find_entry, h) refl

  pub find_entry-miss :
      (key : List ℕ) (e : Entry M) (es : List (Entry M))
      → cmp_partition_key e key ≢ Ordering.eq
      → find_entry key (e ∷ es) ≡ find_entry key es
  unfolding find_entry
  find_entry-miss key e es h = elim (key_case e key) [
    | below_key k _ ↦ rw (find_entry, k) refl
    | above_key k _ ↦ rw (find_entry, k) refl
    | holds_key k _ _ ↦ absurd (h k)
  ]

  -- What one entry holds, the entries behind it do not.
  pub find_entry-behind :
      (key : List ℕ) (e : Entry M) (es : List (Entry M))
      → cmp_partition_key e key ≡ Ordering.eq
      → All (IsBefore e) es
      → find_entry key es ≡ none
  find_entry-behind key e [] h b = unfold find_entry in refl
  find_entry-behind key e (f ∷ es) h b =
      find_entry-miss key f es other ∙ find_entry-behind key e es h b.1
    where
      other : cmp_partition_key f key ≢ Ordering.eq
      other k = elim (key_case f key) [
        | below_key c _ ↦ cc
        | above_key c _ ↦ cc
        | holds_key _ _ c ↦ cc (IsBefore-below e f key b.0 c)
      ]

  abbrev pub HitCase : (key : List ℕ) (e : Entry M) → Type 0
  HitCase key e = (cmp_partition_key e key ≡ Ordering.eq) ⊎ (cmp_partition_key e key ≢ Ordering.eq)

  pub hit_case : (key : List ℕ) (e : Entry M) → HitCase key e
  hit_case key e = elim (key_case e key) [
    | below_key k _ ↦ inr (λ h. cc)
    | above_key k _ ↦ inr (λ h. cc)
    | holds_key k _ _ ↦ inl k
  ]
