-- ===== src/MetaCache/Responses.antt =====
-- The master's responses in src/meta_cache.rs: `tablet_locations_to_entries` covers the key that was
-- asked for, so `add_tablet_locations` finds it.
use kudu_rs.Backoff.{FloatMath}
use kudu_rs.Base.{
  >>=-eq_ok, Bool, List, Option, Ordering, Outcome, [], ap, err, false, length, ltb, not, ok,
  ok-injective, panic, refl, some, subst, sym, true, ℕ, ◌&&◌, ◌++◌, ◌>>=◌, ◌∙◌, ◌∷◌, ◌≡◌,
}
use kudu_rs.ByteOrder.{BigEndian, LittleEndian}
use kudu_rs.Bytes.{le_bytes, lt_bytes}
use kudu_rs.Bytes.Order.{le_bytes-empty, le_bytes_refl}
use kudu_rs.Dns.{IpAddr, SocketAddr}
use kudu_rs.Key.Columns.{is_empty_key}
use kudu_rs.MetaCache.{
  Entry, MetaCache, cmp_partition_key, extractor, non_covered_range, partition_lower_bound,
  partition_upper_bound, splice_entries, value,
}
use kudu_rs.MetaCache.Chain.{Chain, Chain-IsOrdered, Chain-covers}
use kudu_rs.MetaCache.Contiguous.{start_of}
use kudu_rs.MetaCache.Covered.{
  IsCons, IsResponse, add_final, add_initial, final, initial, upper-behind,
}
use kudu_rs.MetaCache.Kept.{kept, or_else}
use kudu_rs.MetaCache.Locations.{
  Extraction, add_tablet_locations, max_returned_table_locations, reply_ok,
  tablet_locations_to_entries, tablets_to_entries,
}
use kudu_rs.MetaCache.Lookup.{extract_cached-find_entry, find_entry}
use kudu_rs.MetaCache.Order.{IsOrdered, bound_le}
use kudu_rs.MetaCache.Point.{AtMostOne, splice_entries-find_entry}
use kudu_rs.MetaCache.Tablets.{tablets_to_entries-Covers}
use kudu_rs.Row.{VecMap}
use kudu_rs.Tablet.{TabletPb}

pushed-nonempty :
    (u : List ℕ) (b : Bool) → (not (is_empty_key u) && b) ≡ true → is_empty_key u ≡ false
pushed-nonempty [] b h = cc
pushed-nonempty (x ∷ u) b h = refl

-- The callback with what was extracted.
abbrev pub reply_with :
    {M T : Type 0} → MetaCache M → Outcome T → Outcome (MetaCache M × Extraction T)
reply_with cache panic = panic
reply_with cache (err error) = err error
reply_with cache (ok v) = ok (cache, reply_ok v)

module _ (is_utf8 : List ℕ → Bool) (parse_uuid : List ℕ → Option (List ℕ))
    (to_socket_addrs : List ℕ × ℕ → Option (List SocketAddr)) (local_addrs : List IpAddr)
    {M : Type 0} (vec_map : VecMap M) (big_endian : BigEndian) (little_endian : LittleEndian) where
  -- If the response is what the master promises for the key and entries can be made of it, there
  -- is at least one, each starts where the one before it ends, and they start at or before the key
  -- and end behind it.
  pub tablet_locations_to_entries-covers :
      (cache : MetaCache M) (key : List ℕ) (pbs : List TabletPb) (es : List (Entry M))
      → IsResponse key pbs
      → tablet_locations_to_entries is_utf8 parse_uuid to_socket_addrs local_addrs vec_map
          big_endian little_endian cache key pbs
        ≡ ok es
      → (lower : List ℕ) × (upper : List ℕ) × Chain lower es upper
        × (le_bytes lower key ≡ true)
        × (bound_le upper key ≡ false)
        × IsCons es
  unfolding tablet_locations_to_entries partition_lower_bound partition_upper_bound
  tablet_locations_to_entries-covers cache key [] es response h =
      let e = ok-injective (non_covered_range [] [] ∷ []) es h in
      (
        [],
        [],
        subst (λ (x : List (Entry M)). Chain [] x []) e (refl, refl, tt, refl),
        le_bytes-empty key,
        refl,
        (non_covered_range [] [], [], sym e),
      )
  tablet_locations_to_entries-covers cache key (pb ∷ pbs) es response h =
      let lower = start_of pb in
      let (r, of_tablets, h1) =
        >>=-eq_ok
          (tablets_to_entries is_utf8 parse_uuid to_socket_addrs local_addrs vec_map big_endian
            little_endian cache.primary_key_schema cache.cache_partition_schema lower (pb ∷ pbs))
          _ es h in
      let tablets =
        tablets_to_entries-Covers is_utf8 parse_uuid to_socket_addrs local_addrs vec_map big_endian
          little_endian cache.primary_key_schema cache.cache_partition_schema lower pb pbs r
          (le_bytes_refl lower) response.in_order of_tablets in
      let pushed = not (is_empty_key r.1) && ltb (length (pb ∷ pbs)) max_returned_table_locations in
      let (to, chain, stops, is_cons) =
        add_final key lower r.0 r.1 pushed tablets.0 tablets.2 (pushed-nonempty r.1 _)
          (upper-behind key pb pbs r.1 response tablets.1) in
      let (from, chain', starts, is_cons') =
        add_initial key lower (r.0 ++ final r.1 pushed) to chain is_cons in
      let e =
        ok-injective (initial lower (lt_bytes key lower) ++ (r.0 ++ final r.1 pushed)) es h1 in
      (
        from,
        to,
        subst (λ (x : List (Entry M)). Chain from x to) e chain',
        starts,
        stops,
        subst IsCons e is_cons',
      )

  module _ {T R : Type 0} (math : FloatMath R) where
    -- The entry that was spliced in for the key is found.
    add-finds :
        (cache cache' : MetaCache M) (key : List ℕ) (pbs : List TabletPb)
        (extract_from : Entry M → Outcome T) (es : List (Entry M)) (e : Entry M)
        → tablet_locations_to_entries is_utf8 parse_uuid to_socket_addrs local_addrs vec_map
            big_endian little_endian cache key pbs
          ≡ ok es
        → splice_entries cache es ≡ ok cache'
        → IsOrdered cache'.entries
        → find_entry key cache'.entries ≡ some e
        → add_tablet_locations is_utf8 parse_uuid to_socket_addrs local_addrs vec_map big_endian
            little_endian math cache key pbs extract_from
          ≡ reply_with cache' (extract_from e)
    unfolding add_tablet_locations
    add-finds cache cache' key pbs extract_from es e made spliced ordered finds =
        rw
          (
            add_tablet_locations,
            made,
            spliced,
            extract_cached-find_entry cache' key extract_from ordered,
            finds,
          )
          (then_reply (extract_from e))
      where
        then_reply :
            (m : Outcome T)
            → (◌>>=◌ {B = MetaCache M × Extraction T}
                (m >>= λ v. ok (value v))
                λ r. elim r [ value v ↦ ok (cache', reply_ok v) | extractor ↦ panic ])
              ≡ reply_with cache' m
        then_reply panic = refl
        then_reply (err error) = refl
        then_reply (ok v) = refl

    -- If the entries of the cache are ordered, the response is what the master promises for the
    -- key, entries can be made of it, and at most one entry of the cache overlaps the first of
    -- these, then `add_tablet_locations` does not reach its `unreachable!`: it calls back with
    -- what is extracted from an entry that holds the key, and leaves ordered entries in which the
    -- key leads to this entry.
    pub add_tablet_locations-reply :
        (cache : MetaCache M) (key : List ℕ) (pbs : List TabletPb)
        (extract_from : Entry M → Outcome T) (es : List (Entry M))
        → IsOrdered cache.entries
        → IsResponse key pbs
        → tablet_locations_to_entries is_utf8 parse_uuid to_socket_addrs local_addrs vec_map
            big_endian little_endian cache key pbs
          ≡ ok es
        → ((n : Entry M) (ns : List (Entry M)) → es ≡ n ∷ ns → AtMostOne cache.entries n)
        → (cache' : MetaCache M) × (e : Entry M) × IsOrdered cache'.entries
          × (cmp_partition_key e key ≡ Ordering.eq)
          × (find_entry key cache'.entries ≡ some e)
          × (add_tablet_locations is_utf8 parse_uuid to_socket_addrs local_addrs vec_map big_endian
                little_endian math cache key pbs extract_from
              ≡ reply_with cache' (extract_from e))
    add_tablet_locations-reply cache key pbs extract_from es ordered response made one =
        let (lower, upper, chain, starts, stops, (n, ns, is_cons)) =
          tablet_locations_to_entries-covers cache key pbs es response made in
        let chain' = subst (λ (x : List (Entry M)). Chain lower x upper) is_cons chain in
        let (e, finds, holds) = Chain-covers key lower n ns upper chain' starts stops in
        let (cache', spliced, ordered', leads) =
          splice_entries-find_entry cache n ns ordered (Chain-IsOrdered lower (n ∷ ns) upper chain')
            (one n ns is_cons) in
        let finds' =
          leads key
          ∙ ap (λ (o : Option (Entry M)). or_else o (find_entry key (kept (n ∷ ns) cache.entries)))
              finds in
        (
          cache',
          e,
          ordered',
          holds,
          finds',
          add-finds cache cache' key pbs extract_from es e made
              (ap (splice_entries cache) is_cons ∙ spliced) ordered' finds',
        )
