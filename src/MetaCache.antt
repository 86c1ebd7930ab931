-- ===== src/MetaCache.antt =====
-- src/meta_cache.rs: the cache of a table's tablets by their partition keys. A thread that holds the
-- lock is a function on the list of entries; the master's answers are arguments.
pub mod Order
pub mod Lookup
pub mod Splice
pub mod Kept
pub mod Merged
pub mod Point
pub mod Chain
pub mod Locations
pub mod Contiguous
pub mod Tablets
pub mod Covered
pub mod Responses
mod Runs
use kudu_rs.Base.{
  Bool, List, Option, Ordering, Outcome, [], drop, false, get_elem?, if◌then◌else◌, none, not, ok,
  panic, some, take, true, ℕ, ◌&&◌, ◌++◌, ◌>>=◌, ◌∷◌,
}
use kudu_rs.Base.Search.{at_index, binary_search_by, missing}
use kudu_rs.Bytes.{eq_bytes, le_bytes, lt_bytes}
use kudu_rs.Dns.{SocketAddr}
use kudu_rs.Key.Columns.{is_empty_key}
use kudu_rs.Key.Partitions.{PartitionSchema}
use kudu_rs.Schema.{Schema}
use kudu_rs.Tablet.{Tablet}
use kudu_rs.Types.{leader}

pub data Entry (M : Type 0) : Type 0 where
  tablet_entry : Tablet M → Entry M
  non_covered_range : List ℕ → List ℕ → Entry M

module _ {M : Type 0} where
  unfoldable pub is_tablet : Entry M → Bool
  is_tablet (tablet_entry tablet) = true
  is_tablet (non_covered_range lower upper) = false

  unfoldable pub partition_lower_bound : Entry M → List ℕ
  partition_lower_bound (tablet_entry tablet) = tablet.partition.lower_bound_key
  partition_lower_bound (non_covered_range lower upper) = lower

  unfoldable pub partition_upper_bound : Entry M → List ℕ
  partition_upper_bound (tablet_entry tablet) = tablet.partition.upper_bound_key
  partition_upper_bound (non_covered_range lower upper) = upper

  -- Where the entry lies, seen from the key.
  unfoldable pub cmp_partition_key : Entry M → List ℕ → Ordering
  cmp_partition_key e key =
      if not (is_empty_key (partition_upper_bound e)) && le_bytes (partition_upper_bound e) key
      then Ordering.lt
      else if lt_bytes key (partition_lower_bound e)
      then Ordering.gt
      else Ordering.eq

  unfoldable pub cmp_entry : Entry M → Entry M → Ordering
  cmp_entry a b =
      if not (is_empty_key (partition_upper_bound a))
        && le_bytes (partition_upper_bound a) (partition_lower_bound b)
      then Ordering.lt
      else if not (is_empty_key (partition_upper_bound b))
          && le_bytes (partition_upper_bound b) (partition_lower_bound a)
      then Ordering.gt
      else Ordering.eq

  unfoldable pub equiv : Entry M → Entry M → Bool
  equiv (tablet_entry a) (tablet_entry b) = eq_bytes a.tablet_id b.tablet_id
  equiv (non_covered_range lower upper) (non_covered_range lower' upper') =
      eq_bytes lower lower' && eq_bytes upper upper'
  equiv (tablet_entry a) (non_covered_range lower upper) = false
  equiv (non_covered_range lower upper) (tablet_entry b) = false

pub data ExtractCachedResult (T : Type 0) : Type 0 where
  value : T → ExtractCachedResult T
  extractor : ExtractCachedResult T

-- The state behind the lock, and what is fixed.
pub record MetaCache (M : Type 0) : Type 0 where
  pub table : List ℕ
  pub primary_key_schema : Schema
  pub cache_partition_schema : PartitionSchema
  pub entries : List (Entry M)

unfoldable pub new_cache : {M : Type 0} → List ℕ → Schema → PartitionSchema → MetaCache M
new_cache table primary_key_schema partition_schema = record {
  table = table;
  primary_key_schema = primary_key_schema;
  cache_partition_schema = partition_schema;
  entries = [];
}

unfoldable pub clear : {M : Type 0} → MetaCache M → MetaCache M
clear cache = record cache { entries = [] }

module _ {M T : Type 0} where
  unfoldable pub extract_cached :
      MetaCache M → List ℕ → (Entry M → Outcome T) → Outcome (ExtractCachedResult T)
  extract_cached cache key extract_from =
      elim (binary_search_by (λ e. cmp_partition_key e key) cache.entries) [
        | missing i ↦ ok extractor
        | at_index i ↦ elim (get_elem? cache.entries i) [
          | none ↦ panic
          | some e ↦ do v ← extract_from e; ok (value v)
        ]
      ]

-- The extractors of `entry`, `tablet_id` and `tablet_leader`.
module _ {M : Type 0} where
  unfoldable pub extract_entry : Entry M → Outcome (Entry M)
  extract_entry e = ok e

  unfoldable pub extract_tablet_id : Entry M → Outcome (Option (List ℕ))
  extract_tablet_id (tablet_entry tablet) = ok (some tablet.tablet_id)
  extract_tablet_id (non_covered_range lower upper) = ok none

  -- `replicas()[0]` panics if there are none.
  unfoldable pub extract_leader : Entry M → Outcome (Option (List ℕ × List SocketAddr))
  extract_leader (non_covered_range lower upper) = ok none
  extract_leader (tablet_entry tablet) = elim (get_elem? tablet.replicas 0) [
    | none ↦ panic
    | some replica ↦ elim replica.role [
      | leader ↦ ok (some (tablet.tablet_id, replica.resolved_rpc_addrs))
      | _ ↦ ok (some (tablet.tablet_id, []))
    ]
  ]

  unfoldable pub cached_entry : MetaCache M → List ℕ → Outcome (Option (Entry M))
  unfolding extract_cached extract_entry
  cached_entry cache key = do
    r ← extract_cached cache key extract_entry
    ok (elim r [ value e ↦ some e | extractor ↦ none ])

  -- The existing entries behind the first ones that overlap the new entry.
  unfoldable pub skip_overlapping : Entry M → List (Entry M) → List (Entry M)
  unfolding cmp_entry
  skip_overlapping added [] = []
  skip_overlapping added (existing ∷ rest) = elim (cmp_entry existing added) [
    | Ordering.eq ↦ skip_overlapping added rest
    | _ ↦ existing ∷ rest
  ]

  -- The loop of `splice_entries` over the existing and the new entries that are left.
  unfoldable pub splice_loop : List (Entry M) → List (Entry M) → List (Entry M)
  unfolding cmp_entry skip_overlapping
  splice_loop existing [] = existing
  splice_loop [] (added ∷ new_entries) = added ∷ splice_loop [] new_entries
  splice_loop (existing ∷ rest) (added ∷ new_entries) = elim (cmp_entry existing added) [
    | Ordering.eq ↦ added ∷ splice_loop (skip_overlapping added rest) new_entries
    | Ordering.lt ↦ existing ∷ splice_loop rest (added ∷ new_entries)
    | Ordering.gt ↦ added ∷ splice_loop (existing ∷ rest) new_entries
  ]

  unfoldable pub splice_point : List (Entry M) → Entry M → ℕ
  splice_point entries added = elim (binary_search_by (λ e. cmp_entry e added) entries) [
    | at_index i ↦ i
    | missing i ↦ i
  ]

  -- Without new entries, `new_entries[0]` panics in the search where there is an entry to compare.
  unfoldable pub splice_entries : MetaCache M → List (Entry M) → Outcome (MetaCache M)
  unfolding splice_point splice_loop
  splice_entries cache [] = elim cache.entries [ [] ↦ ok cache | _ ↦ panic ]
  splice_entries cache (added ∷ new_entries) =
      let at = splice_point cache.entries added in
      ok (record cache {
        entries =
            take at cache.entries ++ splice_loop (drop at cache.entries) (added ∷ new_entries);
      })
