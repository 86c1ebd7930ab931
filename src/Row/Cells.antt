-- ===== src/Row/Cells.antt =====
-- Writing a cell of a row of src/row.rs changes this cell and no other.
use kudu_rs.Base.{
  Bool-cases, List, arith, drop, false, get_elem?, inl, inr, length, ok, refl, some, sym, take,
  true, ℕ, ◌+◌, ◌∙◌, ◌≡◌, ◌≢◌, ◌≤◌, ◌⊎◌,
}
use kudu_rs.BitSet.{BitSet}
use kudu_rs.Row.{Row, VecMap, get_value, set_value, slice, splice}
use kudu_rs.Row.Columns.{offset_of-ok}
use kudu_rs.Row.Slices.{length-splice, slice-ok, slice-splice_apart, slice-splice_self}
use kudu_rs.Schema.{Column}
use kudu_rs.Schema.Layout.{LaidOut, LaidOut-apart}
use kudu_rs.Types.{size}
use kudu_rs.Value.{Value}
use kudu_rs.Value.Lawful.{IsLawful}
use mathlib.Core.Option.{some-injective}

module _ {M : Type 0} (vec_map : VecMap M) (cs : List Column) (idx : ℕ) where
  -- What is as it was, other than column `idx`.
  pub record Stored (r r' : Row M) : Type 0 where
    pub same_schema : r'.schema ≡ r.schema
    pub same_length : length r'.row_data ≡ length r.row_data
    pub same_indirect :
        (j : ℕ) → idx ≢ j → vec_map.find r'.row_indirect_data j ≡ vec_map.find r.row_indirect_data j
    pub same_direct :
        (j at : ℕ) (d : Column)
        → idx ≢ j
        → get_elem? cs j ≡ some d
        → get_elem? r.schema.column_offsets j ≡ some at
        → slice r'.row_data at (size d.data_type) ≡ slice r.row_data at (size d.data_type)

  -- Storing a value that is not null in column `idx`.
  pub record Stores {V : Type 0} (T : Value V) (v : V) (r : Row M) : Type 0 where
    pub new_row_data : List ℕ
    pub new_indirect : M
    pub stores :
        set_value vec_map T r idx v
        ≡ ok (record r { row_data = new_row_data; row_indirect_data = new_indirect })
    pub stored : Stored r (record r { row_data = new_row_data; row_indirect_data = new_indirect })
    pub reads :
        (bits nulls : BitSet)
        → get_value vec_map T
            (record r {
              row_data = new_row_data;
              row_indirect_data = new_indirect;
              set_columns = bits;
              null_columns = nulls;
            })
            idx
          ≡ ok v

  module _ {V : Type 0} (T : Value V) (v : V) (r : Row M) (c : Column) (laid : LaidOut cs r.schema)
      (at_idx : get_elem? cs idx ≡ some c) where
    -- A value with bytes of its own.
    indirect-Stores :
        (bytes : List ℕ)
        → T.var_len ≡ true
        → T.indirect_data v ≡ ok bytes
        → T.from_data bytes ≡ ok v
        → Stores T v r
    unfolding set_value get_value
    indirect-Stores bytes indirect stored back = record {
      new_row_data = r.row_data;
      new_indirect = vec_map.put r.row_indirect_data idx bytes;
      stores = rw (indirect, stored) refl;
      stored = record {
        same_schema = refl;
        same_length = refl;
        same_indirect = λ j ne. vec_map.find-put_ne r.row_indirect_data idx j bytes ne;
        same_direct = λ j at d ne _ _. refl;
      };
      reads = λ bits nulls. rw (indirect, vec_map.find-put_self r.row_indirect_data idx bytes) back;
    }

    -- A value in the row's own bytes, from `at` on.
    direct-Stores :
        (at : ℕ) (old bytes : List ℕ)
        → T.var_len ≡ false
        → get_elem? r.schema.column_offsets idx ≡ some at
        → slice r.row_data at T.value_size ≡ ok old
        → T.copy_data v old ≡ ok bytes
        → T.from_data bytes ≡ ok v
        → length bytes ≡ T.value_size
        → at + length bytes ≤ length r.row_data
        → size c.data_type ≡ length bytes
        → length r.row_data ≡ r.schema.row_size
        → Stores T v r
    unfolding set_value get_value
    direct-Stores at old bytes direct offset old_bytes copied back long fits as_long room = record {
      new_row_data = splice r.row_data at bytes;
      new_indirect = r.row_indirect_data;
      stores = rw (direct, offset_of-ok r.schema idx at offset, old_bytes, copied) refl;
      stored = record {
        same_schema = refl;
        same_length = length-splice r.row_data at bytes fits;
        same_indirect = λ j ne. refl;
        same_direct = λ j b d ne at_j offset_j.
            slice-splice_apart r.row_data at bytes b (size d.data_type) fits
              (inside_row j b d at_j offset_j)
              (apart b (size d.data_type)
                (LaidOut-apart idx j c d at b laid ne at_idx at_j offset offset_j));
      };
      reads = λ bits nulls.
          rw
            (
              direct,
              offset_of-ok r.schema idx at offset,
              sym long,
              slice-splice_self r.row_data at bytes fits,
            )
            back;
    }
      where
        inside_row :
            (j b : ℕ) (d : Column)
            → get_elem? cs j ≡ some d
            → get_elem? r.schema.column_offsets j ≡ some b
            → b + size d.data_type ≤ length r.row_data
        inside_row j b d at_j offset_j =
            let (b', found, _, _, inside) = laid.column_at j d at_j in
            let same_offset : b ≡ b' = some-injective b b' (sym offset_j ∙ found) in
            omega (arith, same_offset, inside, room)

        apart :
            (b n : ℕ)
            → (b + n ≤ at) ⊎ (at + size c.data_type ≤ b)
            → (b + n ≤ at) ⊎ (at + length bytes ≤ b)
        apart b n (inl h) = inl h
        apart b n (inr h) = inr (omega (arith, h, as_long))

    pub set_value-Stores :
        IsLawful T v
        → T.is_null v ≡ false
        → length r.row_data ≡ r.schema.row_size
        → T.can_write_to c.data_type ≡ true
        → Stores T v r
    set_value-Stores lawful present room writes = elim (Bool-cases T.var_len) [
      | inl indirect ↦
          let (bytes, stored, back) = lawful.indirect_back present indirect in
          indirect-Stores bytes indirect stored back
      | inr direct ↦
          let (at, offset, _, _, inside) = laid.column_at idx c at_idx in
          let wide : size c.data_type ≡ T.value_size = lawful.size_of_column c.data_type writes in
          let (old_bytes, long_old) =
            slice-ok r.row_data at T.value_size (omega (arith, inside, room, wide)) in
          let (bytes, copied, long, back) =
            lawful.direct_back present direct (take T.value_size (drop at r.row_data)) long_old in
          direct-Stores at _ bytes direct offset old_bytes copied back long
            (omega (arith, inside, room, wide, long)) (wide ∙ sym long) room
    ]
