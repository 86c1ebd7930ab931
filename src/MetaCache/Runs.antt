-- ===== src/MetaCache/Runs.antt =====
-- Runs of src/meta_cache.rs, and the theorems at concrete inputs.
use kudu_rs.Backoff.Runs.{ones}
use kudu_rs.Base.{
  List, Option, Ordering, Outcome, [], ap, false, none, ok, refl, some, subst, suc, true, value_or,
  zero, ℕ, ◌∷◌, ◌≡◌,
}
use kudu_rs.Base.Search.{binary_search_by}
use kudu_rs.BitSet.{with_capacity}
use kudu_rs.Bytes.{le_bytes, lt_bytes}
use kudu_rs.Dns.{SocketAddr}
use kudu_rs.Key.Partitions.{PartitionSchema, decode_range_partition_key}
use kudu_rs.Key.Runs.{any_utf8, bytes_in_order, key_low_first, key_map}
use kudu_rs.MetaCache.{
  Entry, MetaCache, cached_entry, cmp_entry, cmp_partition_key, extract_cached, extract_entry,
  non_covered_range, partition_lower_bound, partition_upper_bound, splice_entries,
}
use kudu_rs.MetaCache.Chain.{Chain}
use kudu_rs.MetaCache.Contiguous.{start_of}
use kudu_rs.MetaCache.Covered.{IsCons, IsResponse}
use kudu_rs.MetaCache.Kept.{kept, or_else}
use kudu_rs.MetaCache.Locations.{add_tablet_locations, tablet_locations_to_entries}
use kudu_rs.MetaCache.Lookup.{extract_cached-find_entry, extracted_of, find_entry}
use kudu_rs.MetaCache.Order.{IsOrdered, bound_le}
use kudu_rs.MetaCache.Point.{AtMostOne, splice_entries-find_entry, splice_entries-stale}
use kudu_rs.MetaCache.Responses.{
  add_tablet_locations-reply, reply_with, tablet_locations_to_entries-covers,
}
use kudu_rs.Partition.{partition_from_pb}
use kudu_rs.Row.{new_row}
use kudu_rs.Schema.{new}
use kudu_rs.Tablet.{TabletPb, parse_bytes, tablet_from_pb}

abbrev Map : Type 0
Map = ℕ → Option (List ℕ)

-- The ranges up to "a", from there to "m", and from there on.
abbrev three_ranges : List (Entry Map)
three_ranges =
    non_covered_range [] (97 ∷ [])
    ∷ non_covered_range (97 ∷ []) (109 ∷ [])
    ∷ non_covered_range (109 ∷ []) []
    ∷ []

abbrev no_schema : PartitionSchema
no_schema = record {
  range_partition_schema = record { range_columns = [] };
  hash_partition_schemas = [];
}

abbrev empty_cache : MetaCache Map
empty_cache = record {
  table = [];
  primary_key_schema = new [] 0;
  cache_partition_schema = no_schema;
  entries = [];
}

abbrev full_cache : MetaCache Map
full_cache = record {
  table = [];
  primary_key_schema = new [] 0;
  cache_partition_schema = no_schema;
  entries = three_ranges;
}

bounds : Unit {0}
unfolding partition_lower_bound partition_upper_bound le_bytes lt_bytes cmp_entry cmp_partition_key
bounds = tt

full-IsOrdered : IsOrdered full_cache.entries
unfolding bounds
full-IsOrdered = (refl, (refl, (refl, tt)), (refl, (refl, tt), (refl, tt, tt)))

-- "b" lies in the second range.
find_second : cached_entry full_cache (98 ∷ []) ≡ ok (some (non_covered_range (97 ∷ []) (109 ∷ [])))
unfolding bounds cached_entry binary_search_by
find_second = refl

extract_cached-find_entry_example :
    extract_cached full_cache (98 ∷ []) extract_entry
    ≡ extracted_of extract_entry (find_entry (98 ∷ []) full_cache.entries)
extract_cached-find_entry_example =
    extract_cached-find_entry full_cache (98 ∷ []) extract_entry full-IsOrdered

-- A range that is known to have no upper bound, and what replaces it.
abbrev one_range : MetaCache Map
one_range = record full_cache { entries = non_covered_range (109 ∷ []) [] ∷ [] }

one_range-AtMostOne : (n : Entry Map) → AtMostOne one_range.entries n
one_range-AtMostOne n zero zero e f at_i at_j h k = refl
one_range-AtMostOne n zero (suc j) e f at_i at_j h k = cc
one_range-AtMostOne n (suc i) j e f at_i at_j h k = cc

abbrev front_range : Entry Map
front_range = non_covered_range (100 ∷ []) (112 ∷ [])

abbrev back_range : Entry Map
back_range = non_covered_range (112 ∷ []) (120 ∷ [])

one_range-IsOrdered : IsOrdered one_range.entries
unfolding bounds
one_range-IsOrdered = (refl, tt, tt)

new_ranges-IsOrdered : IsOrdered (front_range ∷ back_range ∷ [])
unfolding bounds
new_ranges-IsOrdered = (refl, (refl, tt), (refl, tt, tt))

splice_entries-find_entry_example :
    (cache' : MetaCache Map) × (splice_entries one_range (front_range ∷ back_range ∷ [])
      ≡ ok cache')
    × IsOrdered cache'.entries
    × ((key : List ℕ)
        → find_entry key cache'.entries
          ≡ or_else
              (find_entry key (front_range ∷ back_range ∷ []))
              (find_entry key (kept (front_range ∷ back_range ∷ []) one_range.entries)))
splice_entries-find_entry_example =
    splice_entries-find_entry one_range front_range (back_range ∷ []) one_range-IsOrdered
      new_ranges-IsOrdered (one_range-AtMostOne front_range)

-- Two ranges that one new range covers.
abbrev two_ranges : MetaCache Map
two_ranges = record full_cache {
  entries = non_covered_range (97 ∷ []) (99 ∷ []) ∷ non_covered_range (99 ∷ []) (101 ∷ []) ∷ [];
}

abbrev range_ac : Entry Map
range_ac = non_covered_range (97 ∷ []) (99 ∷ [])

abbrev range_ce : Entry Map
range_ce = non_covered_range (99 ∷ []) (101 ∷ [])

abbrev wide_range : Entry Map
wide_range = non_covered_range (97 ∷ []) (101 ∷ [])

wide-overlaps_first : cmp_entry range_ac wide_range ≡ Ordering.eq
unfolding bounds
wide-overlaps_first = refl

wide-overlaps_second : cmp_entry range_ce wide_range ≡ Ordering.eq
unfolding bounds
wide-overlaps_second = refl

splice_entries-stale_example :
    splice_entries two_ranges (wide_range ∷ [])
    ≡ ok (record two_ranges { entries = non_covered_range (97 ∷ []) (99 ∷ []) ∷ wide_range ∷ [] })
splice_entries-stale_example =
    splice_entries-stale two_ranges range_ac range_ce wide_range refl wide-overlaps_first
      wide-overlaps_second

-- Two tablets with a gap between them, and a key in the gap.
abbrev tablet_pb : List ℕ → List ℕ → TabletPb
tablet_pb lower upper = record {
  pb_tablet_id = 7 ∷ [];
  pb_partition = record { pb_partition_key_start = lower; pb_partition_key_end = upper };
  pb_replicas = [];
}

abbrev two_tablets : List TabletPb
two_tablets = tablet_pb (97 ∷ []) (99 ∷ []) ∷ tablet_pb (109 ∷ []) (112 ∷ []) ∷ []

abbrev no_addrs : List ℕ × ℕ → Option (List SocketAddr)
no_addrs hostport = none

abbrev to_entries : Outcome (List (Entry Map))
to_entries =
    tablet_locations_to_entries any_utf8 some no_addrs [] key_map bytes_in_order key_low_first
      empty_cache (100 ∷ []) two_tablets

abbrev two_entries : List (Entry Map)
two_entries = value_or [] to_entries

reading : Unit {0}
unfolding bounds tablet_locations_to_entries tablet_from_pb partition_from_pb parse_bytes new
    decode_range_partition_key new_row with_capacity
reading = tt

to_entries-two_entries : to_entries ≡ ok two_entries
unfolding reading
to_entries-two_entries = refl

second_start : List TabletPb → List ℕ
second_start (pb ∷ next ∷ pbs) = start_of next
second_start _ = []

two_tablets-IsResponse : IsResponse (100 ∷ []) two_tablets
unfolding bounds second_start
two_tablets-IsResponse = record {
  in_order = (refl, refl, refl);
  second_behind = λ front second rest e.
      subst (λ (l : List ℕ). le_bytes l (100 ∷ []) ≡ false) (ap second_start e) refl;
}

tablet_locations_to_entries-covers_example :
    (lower : List ℕ) × (upper : List ℕ) × Chain lower two_entries upper
    × (le_bytes lower (100 ∷ []) ≡ true)
    × (bound_le upper (100 ∷ []) ≡ false)
    × IsCons two_entries
tablet_locations_to_entries-covers_example =
    tablet_locations_to_entries-covers any_utf8 some no_addrs [] key_map bytes_in_order
      key_low_first empty_cache (100 ∷ []) two_tablets two_entries two_tablets-IsResponse
      to_entries-two_entries

no-overlap :
    (n : Entry Map) (ns : List (Entry Map)) → two_entries ≡ n ∷ ns → AtMostOne empty_cache.entries n
no-overlap n ns e i j f g at_i at_j h k = cc

add_tablet_locations-reply_example :
    (cache' : MetaCache Map) × (e : Entry Map) × IsOrdered cache'.entries
    × (cmp_partition_key e (100 ∷ []) ≡ Ordering.eq)
    × (find_entry (100 ∷ []) cache'.entries ≡ some e)
    × (add_tablet_locations any_utf8 some no_addrs [] key_map bytes_in_order key_low_first ones
          empty_cache
          (100 ∷ [])
          two_tablets
          extract_entry
        ≡ reply_with cache' (extract_entry e))
add_tablet_locations-reply_example =
    add_tablet_locations-reply any_utf8 some no_addrs [] key_map bytes_in_order key_low_first ones
      empty_cache (100 ∷ []) two_tablets extract_entry two_entries tt two_tablets-IsResponse
      to_entries-two_entries no-overlap
