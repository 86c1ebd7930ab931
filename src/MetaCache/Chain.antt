-- ===== src/MetaCache/Chain.antt =====
-- Contiguous entries of src/meta_cache.rs: each starts where the one before it ends.
use kudu_rs.Base.{
  List, Ordering, [], ap, false, refl, some, subst, sym, true, ℕ, ◌++◌, ◌∙◌, ◌∷◌, ◌≡◌,
}
use kudu_rs.Bytes.{le_bytes}
use kudu_rs.Bytes.Order.{le_bytes_refl}
use kudu_rs.Key.Columns.{is_empty_key}
use kudu_rs.MetaCache.{Entry, cmp_partition_key, partition_lower_bound, partition_upper_bound}
use kudu_rs.MetaCache.Kept.{find_entry-hit, find_entry-miss}
use kudu_rs.MetaCache.Lookup.{find_entry}
use kudu_rs.MetaCache.Order.{
  All-IsBefore_trans, IsBefore, IsOrdered, IsProper, above_key, below_key, bound_le, holds_key,
  key_case,
}

bound_le_self : (u : List ℕ) → is_empty_key u ≡ false → bound_le u u ≡ true
bound_le_self u h = rw (h, le_bytes_refl u) refl

pub bound_le-le_bytes : (u key : List ℕ) → bound_le u key ≡ true → le_bytes u key ≡ true
bound_le-le_bytes [] key h = cc
bound_le-le_bytes (x ∷ u) key h = h

module _ {M : Type 0} where
  -- Only the last entry may have no upper bound.
  abbrev pub Follows : List ℕ → List (Entry M) → Type 0
  Follows upper [] = Unit {0}
  Follows upper (e ∷ es) = is_empty_key upper ≡ false

  -- Entries that cover the keys from the first bound up to the second.
  abbrev pub Chain : List ℕ → List (Entry M) → List ℕ → Type 0
  Chain lower [] upper = lower ≡ upper
  Chain lower (e ∷ es) upper =
      (partition_lower_bound e ≡ lower)
      × IsProper e
      × Follows (partition_upper_bound e) es
      × Chain (partition_upper_bound e) es upper

  pub Chain-IsOrdered :
      (lower : List ℕ) (es : List (Entry M)) (upper : List ℕ) → Chain lower es upper → IsOrdered es
  Chain-IsOrdered lower [] upper c = tt
  Chain-IsOrdered lower (e ∷ []) upper c = (c.1, tt, tt)
  Chain-IsOrdered lower (e ∷ f ∷ es) upper c =
      let rest = Chain-IsOrdered (partition_upper_bound e) (f ∷ es) upper c.3 in
      let b : IsBefore e f =
        ap (bound_le (partition_upper_bound e)) c.3.0
        ∙ bound_le_self (partition_upper_bound e) c.2 in
      (c.1, (b, All-IsBefore_trans e f es b rest.0 rest.1), rest)

  pub Chain-append :
      (lower : List ℕ) (xs : List (Entry M)) (middle : List ℕ) (ys : List (Entry M))
      (upper : List ℕ)
      → Chain lower xs middle
      → Chain middle ys upper
      → Follows middle ys
      → Chain lower (xs ++ ys) upper
  Chain-append lower [] middle ys upper c d f = subst (λ (m : List ℕ). Chain m ys upper) (sym c) d
  Chain-append lower (e ∷ []) middle ys upper c d f = (
    c.0,
    c.1,
    subst (λ (m : List ℕ). Follows m ys) (sym c.3) f,
    subst (λ (m : List ℕ). Chain m ys upper) (sym c.3) d,
  )
  Chain-append lower (e ∷ g ∷ xs) middle ys upper c d f =
      (c.0, c.1, c.2, Chain-append (partition_upper_bound e) (g ∷ xs) middle ys upper c.3 d f)

  -- A key between the bounds is held by an entry.
  pub Chain-covers :
      (key lower : List ℕ) (e : Entry M) (es : List (Entry M)) (upper : List ℕ)
      → Chain lower (e ∷ es) upper
      → le_bytes lower key ≡ true
      → bound_le upper key ≡ false
      → (f : Entry M) × (find_entry key (e ∷ es) ≡ some f) × (cmp_partition_key f key ≡ Ordering.eq)
  Chain-covers key lower e [] upper c from to = elim (key_case e key) [
    | holds_key k _ _ ↦ (e, find_entry-hit key e [] k, k)
    | above_key _ k ↦ cc (ap (λ (l : List ℕ). le_bytes l key) c.0)
    | below_key _ k ↦ cc (ap (λ (u : List ℕ). bound_le u key) c.3)
  ]
  Chain-covers key lower e (g ∷ es) upper c from to = elim (key_case e key) [
    | holds_key k _ _ ↦ (e, find_entry-hit key e (g ∷ es) k, k)
    | above_key _ k ↦ cc (ap (λ (l : List ℕ). le_bytes l key) c.0)
    | below_key h k ↦
        let (f, finds, holds) =
          Chain-covers key (partition_upper_bound e) g es upper c.3
            (bound_le-le_bytes (partition_upper_bound e) key k) to in
        (f, find_entry-miss key e (g ∷ es) (λ hit. cc) ∙ finds, holds)
  ]
