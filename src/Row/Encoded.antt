-- ===== src/Row/Encoded.antt =====
-- How long what `OperationEncoder` of src/row.rs writes is.
use kudu_rs.Base.{
  Bool, Bool-cases, List, ap, arith, drop, false, get_elem?, if◌then◌else◌, inl, inr, length,
  le→leb, not, ok, refl, some, take, true, ℕ, ◌++◌, ◌+◌, ◌∙◌, ◌≡◌, ◌≤◌,
}
use kudu_rs.BitSet.Laws.{get-holds, holds}
use kudu_rs.ByteOrder.{LittleEndian}
use kudu_rs.Row.{Row, VecMap, splice}
use kudu_rs.Row.Columns.{IsRow, offset_of-ok}
use kudu_rs.Row.Encoder.{Writing, encode_direct, encode_indirect, is_encoded, write_at}
use kudu_rs.Row.Slices.{length-splice, read_apart, slice-ok}
use kudu_rs.Schema.{Column}
use kudu_rs.Schema.Layout.{any_nullable-at, take-suc-width}
use kudu_rs.Types.{
  DataType, binary, bool, double, float, int16, int32, int64, int8, is_var_len, size, string,
  timestamp,
}
use kudu_rs.Value.Lawful.{length-to_le}

write_at-ok :
    (bytes : List ℕ) (at : ℕ) (written : List ℕ)
    → at + length written ≤ length bytes
    → write_at bytes at written ≡ ok (splice bytes at written)
unfolding write_at
write_at-ok bytes at written h = rw (le→leb (at + length written) (length bytes) h) refl

-- What a step of the loop leaves: as many bytes, the same ones before the place where it began, and
-- a place that `n` bytes further.
pub record Advanced (s s' : Writing) (n : ℕ) : Type 0 where
  pub as_long : length s'.direct ≡ length s.direct
  pub moved : s'.offset ≡ s.offset + n
  pub before : (k : ℕ) → k ≤ s.offset → take k s'.direct ≡ take k s.direct

size-var_len : (t : DataType) → is_var_len t ≡ true → size t ≡ 16
unfolding is_var_len size
size-var_len string h = refl
size-var_len binary h = refl
size-var_len bool h = cc
size-var_len int8 h = cc
size-var_len int16 h = cc
size-var_len int32 h = cc
size-var_len int64 h = cc
size-var_len timestamp h = cc
size-var_len float h = cc
size-var_len double h = cc

module _ {M : Type 0} (vec_map : VecMap M) (little_endian : LittleEndian) (cs : List Column)
    (r : Row M) (row : IsRow cs r) where
  -- The cells of variable length that are sent have their bytes.
  abbrev pub IsFilled : Type 0
  IsFilled =
      (idx : ℕ) (c : Column)
      → get_elem? cs idx ≡ some c
      → is_var_len c.data_type ≡ true
      → is_encoded r idx c ≡ ok true
      → (bytes : List ℕ) × (vec_map.find r.row_indirect_data idx ≡ some bytes)

  pub is_encoded-total :
      (idx : ℕ) (c : Column)
      → get_elem? cs idx ≡ some c
      → (keep : Bool) × (is_encoded r idx c ≡ ok keep)
  unfolding is_encoded
  is_encoded-total idx c at =
      let inside = (take-suc-width cs idx c at).1 in
      let set_ok = get-holds r.set_columns idx (omega (arith, row.set_room, inside)) in
      elim (Bool-cases (holds r.set_columns idx)) [
        | inr unset ↦ (false, rw (set_ok, unset) refl)
        | inl is_set ↦ elim (Bool-cases c.is_nullable) [
          | inr not_nullable ↦ (true, rw (set_ok, is_set, not_nullable) refl)
          | inl nullable ↦
              let some_null = row.laid_out.has_nullable ∙ any_nullable-at cs idx c at nullable in
              let null_ok =
                get-holds r.null_columns idx (omega (arith, row.null_room some_null, inside)) in
              (not (holds r.null_columns idx), rw (set_ok, is_set, nullable, null_ok) refl)
        ]
      ]

  encode_direct-Advanced :
      (idx : ℕ) (c : Column) (s : Writing)
      → get_elem? cs idx ≡ some c
      → s.offset + size c.data_type ≤ length s.direct
      → (s' : Writing) × (encode_direct vec_map little_endian r idx c s ≡ ok s')
        × Advanced s s' (size c.data_type)
  unfolding encode_direct
  encode_direct-Advanced idx c s at h =
      let (offset, has_offset, _, _, fits) = row.laid_out.column_at idx c at in
      let (sliced, long) =
        slice-ok r.row_data offset (size c.data_type) (omega (arith, fits, row.data_room)) in
      let bytes = take (size c.data_type) (drop offset r.row_data) in
      let room : s.offset + length bytes ≤ length s.direct = omega (arith, h, long) in
      (
        record s { direct = splice s.direct s.offset bytes; offset = s.offset + size c.data_type },
        rw
            (
              offset_of-ok r.schema idx offset has_offset,
              sliced,
              write_at-ok s.direct s.offset bytes room,
            )
            refl,
        (record {
          as_long = length-splice s.direct s.offset bytes room;
          moved = refl;
          before = λ k le. read_apart s.direct s.offset bytes 0 k room (inl (omega arith));
        }),
      )

  encode_indirect-Advanced :
      (idx : ℕ) (c : Column) (s : Writing) (bytes : List ℕ)
      → vec_map.find r.row_indirect_data idx ≡ some bytes
      → is_var_len c.data_type ≡ true
      → s.offset + size c.data_type ≤ length s.direct
      → (s' : Writing) × (encode_indirect vec_map little_endian r idx c s ≡ ok s')
        × Advanced s s' (size c.data_type)
  unfolding encode_indirect
  encode_indirect-Advanced idx c s bytes finds var_len h =
      let wide = size-var_len c.data_type var_len in
      let at_bytes = little_endian.write_le 8 (length s.indirect) in
      let long = little_endian.write_le 8 (length bytes) in
      let length_at = length-write_le (length s.indirect) in
      let length_long = length-write_le (length bytes) in
      let once = splice s.direct s.offset at_bytes in
      let room : s.offset + length at_bytes ≤ length s.direct = omega (arith, h, wide, length_at) in
      let once_long = length-splice s.direct s.offset at_bytes room in
      let room' : s.offset + 8 + length long ≤ length once =
        omega (arith, h, wide, length_long, once_long) in
      (
        record s {
          direct = splice once (s.offset + 8) long;
          indirect = s.indirect ++ bytes;
          offset = s.offset + size c.data_type;
        },
        rw
            (
              finds,
              write_at-ok s.direct s.offset at_bytes room,
              write_at-ok once (s.offset + 8) long room',
            )
            refl,
        (record {
          as_long = length-splice once (s.offset + 8) long room' ∙ once_long;
          moved = refl;
          before = λ k le.
              read_apart once (s.offset + 8) long 0 k room' (inl (omega arith))
              ∙ read_apart s.direct s.offset at_bytes 0 k room (inl (omega arith));
        }),
      )
    where
      length-write_le : (x : ℕ) → length (little_endian.write_le 8 x) ≡ 8
      length-write_le x = ap length (little_endian.writes_le 8 x) ∙ length-to_le 8 x

  -- One column: skipped, or its place taken.
  pub encode_cell-Advanced :
      (idx : ℕ) (c : Column) (s : Writing) (keep : Bool)
      → IsFilled
      → get_elem? cs idx ≡ some c
      → is_encoded r idx c ≡ ok keep
      → s.offset + size c.data_type ≤ length s.direct
      → (s' : Writing) × ((if not keep
            then ok s
            else if is_var_len c.data_type
            then encode_indirect vec_map little_endian r idx c s
            else encode_direct vec_map little_endian r idx c s)
          ≡ ok s')
        × Advanced s s' (if keep then size c.data_type else 0)
  encode_cell-Advanced idx c s false filled at kept h =
      (s, refl, (record { as_long = refl; moved = omega arith; before = λ k le. refl }))
  encode_cell-Advanced idx c s true filled at kept h = elim (Bool-cases (is_var_len c.data_type)) [
    | inl var_len ↦
        let (bytes, finds) = filled idx c at var_len kept in
        rw var_len (encode_indirect-Advanced idx c s bytes finds var_len h)
    | inr fixed ↦ rw fixed (encode_direct-Advanced idx c s at h)
  ]
