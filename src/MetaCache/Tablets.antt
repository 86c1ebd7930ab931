-- ===== src/MetaCache/Tablets.antt =====
-- The tablets of a response as contiguous entries of src/meta_cache.rs.
use kudu_rs.Base.{
  >>=-eq_ok, Bool, List, Option, Outcome, [], ap, ap₂, false, ok, ok-injective, refl, subst, sym,
  true, ℕ, ◌∙◌, ◌∷◌, ◌≡◌,
}
use kudu_rs.ByteOrder.{BigEndian, LittleEndian}
use kudu_rs.Bytes.{le_bytes}
use kudu_rs.Dns.{IpAddr, SocketAddr}
use kudu_rs.Key.Columns.{is_empty_key}
use kudu_rs.Key.Partitions.{PartitionSchema}
use kudu_rs.MetaCache.{Entry, partition_lower_bound, partition_upper_bound}
use kudu_rs.MetaCache.Chain.{Chain, Follows, bound_le-le_bytes}
use kudu_rs.MetaCache.Contiguous.{
  InOrder, end_of, last_end, start_of, tablet_from_pb-bounds, with_gap, with_gap-Chain,
  with_gap-cons,
}
use kudu_rs.MetaCache.Locations.{tablets_to_entries}
use kudu_rs.MetaCache.Order.{bound_le}
use kudu_rs.Row.{VecMap}
use kudu_rs.Schema.{Schema}
use kudu_rs.Tablet.{Tablet, TabletPb, tablet_from_pb}

module _ (is_utf8 : List ℕ → Bool) (parse_uuid : List ℕ → Option (List ℕ))
    (to_socket_addrs : List ℕ × ℕ → Option (List SocketAddr)) (local_addrs : List IpAddr)
    {M : Type 0} (vec_map : VecMap M) (big_endian : BigEndian) (little_endian : LittleEndian) where
  module _ (schema : Schema) (partition_schema : PartitionSchema) where
    abbrev pub entries_of : List ℕ → List TabletPb → Outcome (List (Entry M) × List ℕ)
    entries_of =
        tablets_to_entries is_utf8 parse_uuid to_socket_addrs local_addrs vec_map big_endian
          little_endian schema partition_schema

    tablets-step :
        (last : List ℕ) (pb : TabletPb) (pbs : List TabletPb) (r : List (Entry M) × List ℕ)
        → entries_of last (pb ∷ pbs) ≡ ok r
        → (t : Tablet M) × (rest : List (Entry M) × List ℕ) × (t.partition.lower_bound_key
            ≡ start_of pb)
          × (t.partition.upper_bound_key ≡ end_of pb)
          × (entries_of (end_of pb) pbs ≡ ok rest)
          × (r ≡ (with_gap last t rest.0, rest.1))
    unfolding tablets_to_entries
    tablets-step last pb pbs r h =
        let (t, of_pb, h1) =
          >>=-eq_ok
            (tablet_from_pb is_utf8 parse_uuid to_socket_addrs local_addrs vec_map big_endian
              little_endian schema partition_schema pb)
            _ r h in
        let bounds =
          tablet_from_pb-bounds is_utf8 parse_uuid to_socket_addrs local_addrs vec_map big_endian
            little_endian schema partition_schema pb t of_pb in
        let (rest, of_pbs, h2) = >>=-eq_ok (entries_of t.partition.upper_bound_key pbs) _ r h1 in
        (
          t,
          rest,
          bounds.0,
          bounds.1,
          subst (λ (u : List ℕ). entries_of u pbs ≡ ok rest) bounds.1 of_pbs,
          sym (ok-injective _ r h2),
        )

    -- The entries of tablets in order: contiguous, at least one, up to the end of the last tablet.
    abbrev pub Covers : List ℕ → List TabletPb → List (Entry M) × List ℕ → Type 0
    Covers last pbs r =
        Chain last r.0 r.1
        × (r.1 ≡ last_end last pbs)
        × ((e : Entry M) × (es : List (Entry M)) × (r.0 ≡ e ∷ es))

    step-Covers :
        (last : List ℕ) (pb : TabletPb) (pbs : List TabletPb) (t : Tablet M)
        (rest : List (Entry M) × List ℕ)
        → t.partition.lower_bound_key ≡ start_of pb
        → t.partition.upper_bound_key ≡ end_of pb
        → le_bytes last (start_of pb) ≡ true
        → bound_le (end_of pb) (start_of pb) ≡ false
        → Follows (end_of pb) rest.0
        → Chain (end_of pb) rest.0 rest.1
        → rest.1 ≡ last_end (end_of pb) pbs
        → Covers last (pb ∷ pbs) (with_gap last t rest.0, rest.1)
    unfolding partition_lower_bound partition_upper_bound
    step-Covers last pb pbs t rest lower upper le proper follows chain ends = (
      with_gap-Chain last t rest.0 rest.1 (ap (le_bytes last) lower ∙ le)
          (ap₂ bound_le upper lower ∙ proper)
          (subst (λ (u : List ℕ). Follows u rest.0) (sym upper) follows)
          (subst (λ (u : List ℕ). Chain u rest.0 rest.1) (sym upper) chain),
      ends,
      with_gap-cons last t rest.0,
    )

    bound_le-nonempty : (u k : List ℕ) → bound_le u k ≡ true → is_empty_key u ≡ false
    bound_le-nonempty [] k h = cc
    bound_le-nonempty (x ∷ u) k h = refl

    no_tablets : (u : List ℕ) (r : List (Entry M) × List ℕ) → entries_of u [] ≡ ok r → r ≡ ([], u)
    unfolding tablets_to_entries
    no_tablets u r h = sym (ok-injective ([], u) r h)

    pub tablets_to_entries-Covers :
        (last : List ℕ) (pb : TabletPb) (pbs : List TabletPb) (r : List (Entry M) × List ℕ)
        → le_bytes last (start_of pb) ≡ true
        → InOrder (pb ∷ pbs)
        → entries_of last (pb ∷ pbs) ≡ ok r
        → Covers last (pb ∷ pbs) r
    tablets_to_entries-Covers last pb [] r le order h =
        let (t, rest, lower, upper, of_rest, is_r) = tablets-step last pb [] r h in
        subst (Covers last (pb ∷ [])) (sym is_r) (
          let e = no_tablets (end_of pb) rest of_rest in
          step-Covers last pb [] t rest lower upper le order
            (subst (λ (x : List (Entry M) × List ℕ). Follows (end_of pb) x.0) (sym e) tt)
            (subst (λ (x : List (Entry M) × List ℕ). Chain (end_of pb) x.0 x.1) (sym e) refl)
            (ap (λ (x : List (Entry M) × List ℕ). x.1) e))
    tablets_to_entries-Covers last pb (next ∷ pbs) r le order h =
        let (t, rest, lower, upper, of_rest, is_r) = tablets-step last pb (next ∷ pbs) r h in
        let later =
          tablets_to_entries-Covers (end_of pb) next pbs rest
            (bound_le-le_bytes (end_of pb) (start_of next) order.1) order.2 of_rest in
        subst (Covers last (pb ∷ next ∷ pbs)) (sym is_r) (
          step-Covers last pb (next ∷ pbs) t rest lower upper le order.0
            (subst (Follows (end_of pb)) (sym later.2.2)
              (bound_le-nonempty (end_of pb) (start_of next) order.1))
            later.0 later.1)
