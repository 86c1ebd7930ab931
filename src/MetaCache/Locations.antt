-- ===== src/MetaCache/Locations.antt =====
-- `extract` of src/meta_cache.rs: what it asks the master, and what the answer adds to the cache.
use kudu_rs.Backoff.{Backoff, FloatMath, next_backoff_ms, with_duration_range}
use kudu_rs.Base.{
  Bool, Error, List, Option, Outcome, [], err, if◌then◌else◌, length, ltb, not, ok, panic, ℕ, ◌&&◌,
  ◌++◌, ◌>>=◌, ◌∷◌,
}
use kudu_rs.ByteOrder.{BigEndian, LittleEndian}
use kudu_rs.Bytes.{lt_bytes}
use kudu_rs.Dns.{IpAddr, SocketAddr}
use kudu_rs.Key.Columns.{is_empty_key}
use kudu_rs.Key.Partitions.{PartitionSchema}
use kudu_rs.MetaCache.{
  Entry, MetaCache, extract_cached, extractor, non_covered_range, splice_entries, tablet_entry,
  value,
}
use kudu_rs.Row.{VecMap}
use kudu_rs.Schema.{Schema}
use kudu_rs.Tablet.{TabletPb, tablet_from_pb}

pub record LocationsRequest : Type 0 where
  pub request_table : List ℕ
  pub partition_key_start : List ℕ
  pub max_returned_locations : ℕ

-- What `extract` does: it calls back, it asks the master, or it waits to start again.
pub data Extraction (T : Type 0) : Type 0 where
  reply_ok : T → Extraction T
  reply_err : Error → Extraction T
  request : LocationsRequest → Extraction T
  retry : ℕ → Backoff → Extraction T

-- The master's answer to a request.
pub data Response : Type 0 where
  locations : List TabletPb → Response
  tablet_not_running : Response
  failed : Error → Response

abbrev pub max_returned_table_locations : ℕ
max_returned_table_locations = 10

-- `backoff()`
unfoldable pub first_backoff : Outcome Backoff
first_backoff = with_duration_range 100 60000000

-- The table's identifier as text is made by the crate uuid.
module _ {M T : Type 0} (simple : List ℕ → List ℕ) where
  unfoldable pub extract : MetaCache M → List ℕ → (Entry M → Outcome T) → Outcome (Extraction T)
  unfolding extract_cached
  extract cache key extract_from = do
    r ← extract_cached cache key extract_from
    ok (elim r [
      | value v ↦ reply_ok v
      | extractor ↦ request (record {
        request_table = simple cache.table;
        partition_key_start = key;
        max_returned_locations = max_returned_table_locations;
      })
    ])

module _ (is_utf8 : List ℕ → Bool) (parse_uuid : List ℕ → Option (List ℕ))
    (to_socket_addrs : List ℕ × ℕ → Option (List SocketAddr)) (local_addrs : List IpAddr)
    {M : Type 0} (vec_map : VecMap M) (big_endian : BigEndian) (little_endian : LittleEndian) where
  -- The loop over the tablets, with the upper bound of the last one; it returns what it appends.
  unfoldable pub tablets_to_entries :
      Schema → PartitionSchema → List ℕ → List TabletPb → Outcome (List (Entry M) × List ℕ)
  tablets_to_entries primary_key_schema partition_schema last_upper_bound [] =
      ok ([], last_upper_bound)
  tablets_to_entries primary_key_schema partition_schema last_upper_bound (pb ∷ pbs) = do
    tablet ←
        tablet_from_pb is_utf8 parse_uuid to_socket_addrs local_addrs vec_map big_endian
          little_endian primary_key_schema partition_schema pb
    let lower = tablet.partition.lower_bound_key
    let upper = tablet.partition.upper_bound_key
    rest ← tablets_to_entries primary_key_schema partition_schema upper pbs
    ok (
      (if lt_bytes last_upper_bound lower
          then non_covered_range last_upper_bound lower ∷ tablet_entry tablet ∷ rest.0
          else tablet_entry tablet ∷ rest.0),
      rest.1,
    )

  unfoldable pub tablet_locations_to_entries :
      MetaCache M → List ℕ → List TabletPb → Outcome (List (Entry M))
  unfolding tablets_to_entries
  tablet_locations_to_entries cache key [] = ok (non_covered_range [] [] ∷ [])
  tablet_locations_to_entries cache key (pb ∷ pbs) = do
    let first_lower = pb.pb_partition.pb_partition_key_start
    let initial = if lt_bytes key first_lower then non_covered_range [] first_lower ∷ [] else []
    r ←
        tablets_to_entries cache.primary_key_schema cache.cache_partition_schema first_lower
          (pb ∷ pbs)
    let final =
        if not (is_empty_key r.1) && ltb (length (pb ∷ pbs)) max_returned_table_locations
        then non_covered_range r.1 [] ∷ []
        else []
    ok (initial ++ (r.0 ++ final))

  module _ {T R : Type 0} (math : FloatMath R) where
    -- The thread that takes the tablets in and then calls back; not finding the entry then is
    -- `unreachable!`.
    unfoldable pub add_tablet_locations :
        MetaCache M
        → List ℕ
        → List TabletPb
        → (Entry M → Outcome T)
        → Outcome (MetaCache M × Extraction T)
    unfolding tablet_locations_to_entries splice_entries extract_cached
    add_tablet_locations cache key tablets extract_from =
        elim (tablet_locations_to_entries cache key tablets) [
          | panic ↦ panic
          | err e ↦ ok (cache, reply_err e)
          | ok new_entries ↦ do
            cache ← splice_entries cache new_entries
            r ← extract_cached cache key extract_from
            elim r [ value v ↦ ok (cache, reply_ok v) | extractor ↦ panic ]
        ]

    -- The callback of the request; `rand` is drawn for the backoff.
    unfoldable pub on_response :
        MetaCache M
        → List ℕ
        → Backoff
        → R
        → (Entry M → Outcome T)
        → Response
        → Outcome (MetaCache M × Extraction T)
    unfolding add_tablet_locations
    on_response cache key delays rand extract_from (locations tablets) =
        add_tablet_locations cache key tablets extract_from
    on_response cache key delays rand extract_from tablet_not_running =
        let next = next_backoff_ms math delays rand in ok (cache, retry next.1 next.0)
    on_response cache key delays rand extract_from (failed error) = ok (cache, reply_err error)
