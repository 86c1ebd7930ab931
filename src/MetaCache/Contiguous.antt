-- ===== src/MetaCache/Contiguous.antt =====
-- `tablet_locations_to_entries` of src/meta_cache.rs returns contiguous entries.
use kudu_rs.Base.{
  >>=-eq_ok, Bool, Bool-cases, List, Option, [], ap, false, if◌then◌else◌, inl, inr, ok,
  ok-injective, refl, sym, true, ℕ, ◌∙◌, ◌∷◌, ◌≡◌,
}
use kudu_rs.ByteOrder.{BigEndian, LittleEndian}
use kudu_rs.Bytes.{le_bytes, lt_bytes}
use kudu_rs.Bytes.Order.{le_bytes-empty, le_bytes_antisym, lt_bytes-not}
use kudu_rs.Dns.{IpAddr, SocketAddr}
use kudu_rs.Key.Columns.{is_empty_key}
use kudu_rs.Key.Partitions.{PartitionSchema}
use kudu_rs.MetaCache.{
  Entry, non_covered_range, partition_lower_bound, partition_upper_bound, tablet_entry,
}
use kudu_rs.MetaCache.Chain.{Chain, Follows}
use kudu_rs.MetaCache.Order.{IsProper, bound_le}
use kudu_rs.Partition.{Partition, PartitionPb, partition_from_pb, read_buckets, read_range_bound}
use kudu_rs.Row.{VecMap}
use kudu_rs.Schema.{Schema}
use kudu_rs.Tablet.{Tablet, TabletPb, parse_bytes, replicas_from_pb, tablet_from_pb}

-- The bounds in a message.
abbrev pub start_of : TabletPb → List ℕ
start_of pb = pb.pb_partition.pb_partition_key_start

abbrev pub end_of : TabletPb → List ℕ
end_of pb = pb.pb_partition.pb_partition_key_end

-- Tablets that hold keys, each before the next.
abbrev pub InOrder : List TabletPb → Type 0
InOrder [] = Unit {0}
InOrder (pb ∷ []) = bound_le (end_of pb) (start_of pb) ≡ false
InOrder (pb ∷ next ∷ pbs) =
    (bound_le (end_of pb) (start_of pb) ≡ false)
    × (bound_le (end_of pb) (start_of next) ≡ true)
    × InOrder (next ∷ pbs)

-- The upper bound of the last tablet.
abbrev pub last_end : List ℕ → List TabletPb → List ℕ
last_end upper [] = upper
last_end upper (pb ∷ pbs) = last_end (end_of pb) pbs

pub lt_bytes-nonempty : (a b : List ℕ) → lt_bytes a b ≡ true → is_empty_key b ≡ false
lt_bytes-nonempty a [] h = cc (lt_bytes-not a [], le_bytes-empty a)
lt_bytes-nonempty a (y ∷ b) h = refl

gap-apart : (a b : List ℕ) → lt_bytes a b ≡ true → bound_le b a ≡ false
gap-apart a b h = elim (Bool-cases (le_bytes b a)) [
  | inl k ↦ cc (lt_bytes-not a b, k)
  | inr k ↦ rw (k, lt_bytes-nonempty a b h) refl
]

pub no_gap-le : (a b : List ℕ) → lt_bytes a b ≡ false → le_bytes b a ≡ true
no_gap-le a b h = elim (Bool-cases (le_bytes b a)) [ inl k ↦ k | inr k ↦ cc (lt_bytes-not a b, k) ]

module _ (is_utf8 : List ℕ → Bool) (parse_uuid : List ℕ → Option (List ℕ))
    (to_socket_addrs : List ℕ × ℕ → Option (List SocketAddr)) (local_addrs : List IpAddr)
    {M : Type 0} (vec_map : VecMap M) (big_endian : BigEndian) (little_endian : LittleEndian) where
  partition_from_pb-bounds :
      (schema : Schema) (partition_schema : PartitionSchema) (pb : PartitionPb) (p : Partition M)
      → partition_from_pb vec_map big_endian little_endian is_utf8 schema partition_schema pb ≡ ok p
      → (p.lower_bound_key ≡ pb.pb_partition_key_start)
        × (p.upper_bound_key ≡ pb.pb_partition_key_end)
  unfolding partition_from_pb
  partition_from_pb-bounds schema partition_schema pb p h =
      let bound =
        read_range_bound vec_map big_endian little_endian is_utf8 schema partition_schema in
      let (buckets, _, h1) =
        >>=-eq_ok
          (read_buckets vec_map big_endian little_endian is_utf8
            partition_schema.hash_partition_schemas pb.pb_partition_key_start)
          _ p h in
      let (lower, _, h2) = >>=-eq_ok (bound pb.pb_partition_key_start) _ p h1 in
      let (upper, _, h3) = >>=-eq_ok (bound pb.pb_partition_key_end) _ p h2 in
      let e = sym (ok-injective _ p h3) in
      (ap (λ (x : Partition M). x.lower_bound_key) e, ap (λ (x : Partition M). x.upper_bound_key) e)

  pub tablet_from_pb-bounds :
      (schema : Schema) (partition_schema : PartitionSchema) (pb : TabletPb) (t : Tablet M)
      → tablet_from_pb is_utf8 parse_uuid to_socket_addrs local_addrs vec_map big_endian
          little_endian schema partition_schema pb
        ≡ ok t
      → (t.partition.lower_bound_key ≡ start_of pb) × (t.partition.upper_bound_key ≡ end_of pb)
  unfolding tablet_from_pb
  tablet_from_pb-bounds schema partition_schema pb t h =
      let (id, _, h1) = >>=-eq_ok (parse_bytes is_utf8 parse_uuid pb.pb_tablet_id) _ t h in
      let (partition, of_pb, h2) =
        >>=-eq_ok
          (partition_from_pb vec_map big_endian little_endian is_utf8 schema partition_schema
            pb.pb_partition)
          _ t h1 in
      let (replicas, _, h3) =
        >>=-eq_ok (replicas_from_pb is_utf8 parse_uuid to_socket_addrs local_addrs pb.pb_replicas) _
          t h2 in
      let e = sym (ok-injective _ t h3) in
      let bounds =
        partition_from_pb-bounds schema partition_schema pb.pb_partition partition of_pb in
      (
        ap (λ (x : Tablet M). x.partition.lower_bound_key) e ∙ bounds.0,
        ap (λ (x : Tablet M). x.partition.upper_bound_key) e ∙ bounds.1,
      )

module _ {M : Type 0} where
  -- One tablet, behind a range that is not covered where it starts past the last upper bound.
  abbrev pub with_gap : List ℕ → Tablet M → List (Entry M) → List (Entry M)
  with_gap last t rest =
      if lt_bytes last t.partition.lower_bound_key
      then non_covered_range last t.partition.lower_bound_key ∷ tablet_entry t ∷ rest
      else tablet_entry t ∷ rest

  pub with_gap-Chain :
      (last : List ℕ) (t : Tablet M) (rest : List (Entry M)) (upper : List ℕ)
      → le_bytes last t.partition.lower_bound_key ≡ true
      → IsProper (tablet_entry t)
      → Follows t.partition.upper_bound_key rest
      → Chain t.partition.upper_bound_key rest upper
      → Chain last (with_gap last t rest) upper
  unfolding partition_lower_bound partition_upper_bound
  with_gap-Chain last t rest upper le proper follows chain =
      let lower = t.partition.lower_bound_key in
      elim (Bool-cases (lt_bytes last lower)) [
        | inl gap ↦
            let nonempty = lt_bytes-nonempty last lower gap in
            rw gap (refl, gap-apart last lower gap, nonempty, (refl, proper, follows, chain))
        | inr none_between ↦
            let joined = le_bytes_antisym lower last (no_gap-le last lower none_between) le in
            rw none_between (joined, proper, follows, chain)
      ]

  pub with_gap-cons :
      (last : List ℕ) (t : Tablet M) (rest : List (Entry M))
      → (e : Entry M) × (es : List (Entry M)) × (with_gap last t rest ≡ e ∷ es)
  with_gap-cons last t rest = elim (Bool-cases (lt_bytes last t.partition.lower_bound_key)) [
    | inl h ↦ (non_covered_range last t.partition.lower_bound_key, tablet_entry t ∷ rest, rw h refl)
    | inr h ↦ (tablet_entry t, rest, rw h refl)
  ]
