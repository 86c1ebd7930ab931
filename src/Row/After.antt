-- ===== src/Row/After.antt =====
-- A row of src/row.rs with new bits, data and indirect data.
use kudu_rs.Base.{
  Bool, List, arith, false, if◌then◌else◌, length, ne→==_false, refl, true, ℕ, ◌==◌, ◌∙◌, ◌≡◌,
}
use kudu_rs.BitSet.{BitSet}
use kudu_rs.BitSet.Laws.{holds}
use kudu_rs.Row.{Row, VecMap}
use kudu_rs.Row.Cells.{Stored}
use kudu_rs.Row.Columns.{IsRow, null_bit}
use kudu_rs.Row.Writes.{Keeps}
use kudu_rs.Schema.{Column}

module _ {M : Type 0} (vec_map : VecMap M) (cs : List Column) (idx : ℕ) (r : Row M)
    (row : IsRow cs r) where
  -- The row after new bits and a new value, and what is known of them.
  abbrev pub after : List ℕ → M → BitSet → BitSet → Row M
  after row_data indirect bits nulls = record r {
    row_data = row_data;
    row_indirect_data = indirect;
    set_columns = bits;
    null_columns = nulls;
  }

  abbrev pub SetBits : BitSet → Type 0
  SetBits bits =
      (length bits ≡ length r.set_columns)
      × ((j : ℕ) → holds bits j ≡ (if idx == j then true else holds r.set_columns j))

  abbrev pub NullBits : Bool → BitSet → Type 0
  NullBits null nulls =
      (length nulls ≡ length r.null_columns)
      × ((j : ℕ)
          → (if r.schema.has_nullable_columns then holds nulls j else false)
            ≡ (if idx == j then null else null_bit r j))

  module _ (row_data : List ℕ) (indirect : M) (bits nulls : BitSet) (null : Bool)
      (stored : Stored vec_map cs idx r
        (record r { row_data = row_data; row_indirect_data = indirect }))
      (set_bits : SetBits bits) (null_bits : NullBits null nulls) where
    pub after-IsRow : IsRow cs (after row_data indirect bits nulls)
    after-IsRow = record {
      laid_out = row.laid_out;
      data_room = stored.same_length ∙ row.data_room;
      set_room = omega (arith, set_bits.0, row.set_room);
      null_room = λ e. omega (arith, null_bits.0, row.null_room e);
    }

    pub after-Keeps : Keeps vec_map cs idx r (after row_data indirect bits nulls)
    after-Keeps = record {
      still_row = after-IsRow;
      keeps = record {
        same_schema = refl;
        same_length = stored.same_length;
        same_indirect = stored.same_indirect;
        same_direct = stored.same_direct;
      };
      same_set = λ j ne. set_bits.1 j ∙ rw (ne→==_false idx j ne) refl;
      same_null = λ j ne. null_bits.1 j ∙ rw (ne→==_false idx j ne) refl;
    }

  -- Deleting a value keeps the others.
  pub Stored-delete : Stored vec_map cs idx r (record r {
    row_data = r.row_data;
    row_indirect_data = vec_map.delete r.row_indirect_data idx;
  })
  Stored-delete = record {
    same_schema = refl;
    same_length = refl;
    same_indirect = λ j ne. vec_map.find-delete_ne r.row_indirect_data idx j ne;
    same_direct = λ j at d ne _ _. refl;
  }

  pub same-Stored :
      {bits nulls : BitSet} {row_data : List ℕ} {indirect : M}
      → Stored vec_map cs idx
          (record r { set_columns = bits; null_columns = nulls })
          (after row_data indirect bits nulls)
      → Stored vec_map cs idx r (record r { row_data = row_data; row_indirect_data = indirect })
  same-Stored s = record {
    same_schema = refl;
    same_length = s.same_length;
    same_indirect = s.same_indirect;
    same_direct = s.same_direct;
  }
