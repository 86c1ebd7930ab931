-- ===== src/MetaCache/Order.antt =====
-- The order of the entries of src/meta_cache.rs in the space of partition keys, where an empty upper
-- bound lies behind every key.
use kudu_rs.Base.{
  All, Bool, Bool-cases, List, Ordering, [], false, inl, inr, not, refl, true, ℕ, ◌&&◌, ◌∷◌, ◌≡◌,
}
use kudu_rs.Bytes.{le_bytes}
use kudu_rs.Bytes.Order.{le_bytes_total, le_bytes_trans, lt_bytes-not}
use kudu_rs.Key.Columns.{is_empty_key}
use kudu_rs.MetaCache.{
  Entry, cmp_entry, cmp_partition_key, partition_lower_bound, partition_upper_bound,
}

-- An upper bound that is not behind a key.
abbrev pub bound_le : List ℕ → List ℕ → Bool
bound_le upper key = not (is_empty_key upper) && le_bytes upper key

pub bound_le-le : (u k l : List ℕ) → bound_le u k ≡ true → le_bytes k l ≡ true → bound_le u l ≡ true
bound_le-le [] k l h le = cc
bound_le-le (x ∷ u) k l h le = le_bytes_trans (x ∷ u) k l h le

-- A key that a bound does not reach lies before it, if the bound is not empty.
pub bound_le-false :
    (u k l : List ℕ) → bound_le u k ≡ false → bound_le u l ≡ true → le_bytes k l ≡ true
bound_le-false [] k l h b = cc
bound_le-false (x ∷ u) k l h b = le_bytes_trans k (x ∷ u) l (le_bytes_total (x ∷ u) k h) b

module _ {M : Type 0} where
  abbrev pub IsBefore : Entry M → Entry M → Type 0
  IsBefore a b = bound_le (partition_upper_bound a) (partition_lower_bound b) ≡ true

  -- An entry that holds some key.
  abbrev pub IsProper : Entry M → Type 0
  IsProper e = bound_le (partition_upper_bound e) (partition_lower_bound e) ≡ false

  -- Entries that hold keys, each before all that follow.
  abbrev pub IsOrdered : List (Entry M) → Type 0
  IsOrdered [] = Unit {0}
  IsOrdered (e ∷ es) = IsProper e × All (IsBefore e) es × IsOrdered es

  pub IsBefore-trans : (a b c : Entry M) → IsBefore a b → IsProper b → IsBefore b c → IsBefore a c
  IsBefore-trans a b c h proper k =
      bound_le-le (partition_upper_bound a) (partition_lower_bound b) (partition_lower_bound c) h (
        bound_le-false (partition_upper_bound b) (partition_lower_bound b) (partition_lower_bound c)
          proper k)

  pub All-IsBefore_trans :
      (a b : Entry M) (es : List (Entry M))
      → IsBefore a b
      → IsProper b
      → All (IsBefore b) es
      → All (IsBefore a) es
  All-IsBefore_trans a b [] h proper k = tt
  All-IsBefore_trans a b (e ∷ es) h proper k =
      (IsBefore-trans a b e h proper k.0, All-IsBefore_trans a b es h proper k.1)

  -- The three cases of `cmp_entry` and of `cmp_partition_key`.
  pub data EntryCase (a b : Entry M) : Type 0 where
    before : cmp_entry a b ≡ Ordering.lt → IsBefore a b → EntryCase a b
    behind : cmp_entry a b ≡ Ordering.gt → IsBefore b a → EntryCase a b
    overlaps :
        cmp_entry a b ≡ Ordering.eq
        → bound_le (partition_upper_bound a) (partition_lower_bound b) ≡ false
        → bound_le (partition_upper_bound b) (partition_lower_bound a) ≡ false
        → EntryCase a b

  pub entry_case : (a b : Entry M) → EntryCase a b
  unfolding cmp_entry
  entry_case a b =
      elim (Bool-cases (bound_le (partition_upper_bound a) (partition_lower_bound b))) [
        | inl h ↦ before (rw (cmp_entry, h) refl) h
        | inr h ↦ elim (Bool-cases (bound_le (partition_upper_bound b) (partition_lower_bound a))) [
          | inl k ↦ behind (rw (cmp_entry, h, k) refl) k
          | inr k ↦ overlaps (rw (cmp_entry, h, k) refl) h k
        ]
      ]

  pub data KeyCase (e : Entry M) (key : List ℕ) : Type 0 where
    below_key :
        cmp_partition_key e key ≡ Ordering.lt
        → bound_le (partition_upper_bound e) key ≡ true
        → KeyCase e key
    above_key :
        cmp_partition_key e key ≡ Ordering.gt
        → le_bytes (partition_lower_bound e) key ≡ false
        → KeyCase e key
    holds_key :
        cmp_partition_key e key ≡ Ordering.eq
        → bound_le (partition_upper_bound e) key ≡ false
        → le_bytes (partition_lower_bound e) key ≡ true
        → KeyCase e key

  pub key_case : (e : Entry M) (key : List ℕ) → KeyCase e key
  unfolding cmp_partition_key
  key_case e key = elim (Bool-cases (bound_le (partition_upper_bound e) key)) [
    | inl h ↦ below_key (rw (cmp_partition_key, h) refl) h
    | inr h ↦ elim (Bool-cases (le_bytes (partition_lower_bound e) key)) [
      | inl k ↦
          holds_key (rw (cmp_partition_key, h, lt_bytes-not key (partition_lower_bound e), k) refl)
            h k
      | inr k ↦
          above_key (rw (cmp_partition_key, h, lt_bytes-not key (partition_lower_bound e), k) refl)
            k
    ]
  ]
