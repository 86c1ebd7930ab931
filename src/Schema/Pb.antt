-- ===== src/Schema/Pb.antt =====
-- The conversions of src/schema.rs from and to protobuf messages.
use kudu_rs.Base.{
  Bool, List, [], append-nil, append_assoc, arith, if◌then◌else◌, length, ltb, ok, refl, subst, suc,
  ℕ, ◌++◌, ◌+◌, ◌∙◌, ◌∷◌, ◌≡◌, ◌≤◌,
}
use kudu_rs.Schema.{
  Column, ColumnSchemaPb, as_pb, as_pb_loop, column_from_pb, column_to_pb, from_pb, from_pb_loop,
  new,
}
use kudu_rs.Schema.Layout.{new-columns, new-num_primary_key_columns}
use kudu_rs.Types.Conversions.{
  compression_from_pb-to_pb, data_type_from_pb-to_pb, encoding_from_pb-to_pb,
}
use Prim.Native.Nat.{min}

column_from_pb-to_pb : (c : Column) (is_key : Bool) → column_from_pb (column_to_pb c is_key) ≡ ok c
unfolding column_from_pb column_to_pb
column_from_pb-to_pb c is_key = rw (
  data_type_from_pb-to_pb c.data_type,
  compression_from_pb-to_pb c.compression,
  encoding_from_pb-to_pb c.encoding,
)

column_to_pb-is_key : (c : Column) (is_key : Bool) → (column_to_pb c is_key).pb_is_key ≡ is_key
unfolding column_to_pb
column_to_pb-is_key c is_key = refl

from_pb_loop-cons :
    (num : ℕ) (done : List Column) (c : Column) (is_key : Bool) (pbs : List ColumnSchemaPb)
    → from_pb_loop num done (column_to_pb c is_key ∷ pbs)
      ≡ from_pb_loop (if is_key then num + 1 else num) (done ++ c ∷ []) pbs
unfolding from_pb_loop
from_pb_loop-cons num done c is_key pbs =
    rw (column_from_pb-to_pb c is_key, column_to_pb-is_key c is_key)

counted : (num idx : ℕ) → (if ltb idx num then min num idx + 1 else min num idx) ≡ min num (suc idx)
counted num idx = ground arith

-- `num` key columns were counted, which are all before `idx` that there are.
from_pb_loop-as_pb :
    (num idx : ℕ) (done cs : List Column)
    → num ≤ idx + length cs
    → from_pb_loop (min num idx) done (as_pb_loop num idx cs) ≡ ok (done ++ cs, num)
unfolding as_pb_loop from_pb_loop
from_pb_loop-as_pb num idx done [] h =
    let all : min num idx ≡ num = omega arith in rw (all, append-nil done) refl
from_pb_loop-as_pb num idx done (c ∷ cs) h =
    from_pb_loop-cons (min num idx) done c (ltb idx num) (as_pb_loop num (suc idx) cs)
    ∙ rw (counted num idx) (
        from_pb_loop-as_pb num (suc idx) (done ++ c ∷ []) cs (omega arith)
        ∙ rw (append_assoc done (c ∷ []) cs) refl)

-- A schema that was made with no more key columns than it has columns is read back from its message.
pub from_pb-as_pb :
    (cs : List Column) (n : ℕ) → n ≤ length cs → from_pb (as_pb (new cs n)) ≡ ok (new cs n)
unfolding from_pb as_pb
from_pb-as_pb cs n h =
    let none_yet : min n 0 ≡ 0 = omega arith in
    let read =
      subst (λ (k : ℕ). from_pb_loop k [] (as_pb_loop n 0 cs) ≡ ok (cs, n)) none_yet
        (from_pb_loop-as_pb n 0 [] cs (omega (arith, h))) in
    rw (new-columns cs n, new-num_primary_key_columns cs n, read) refl
