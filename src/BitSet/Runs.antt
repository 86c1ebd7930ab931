-- ===== src/BitSet/Runs.antt =====
-- Runs of src/bit_set.rs, and the theorems at concrete inputs.
use kudu_rs.Base.{[], arith, false, if◌then◌else◌, ok, panic, refl, true, ℕ, ◌<◌, ◌==◌, ◌∷◌, ◌≡◌}
use kudu_rs.BitSet.{BitSet, get, insert, mask, remove, with_capacity}
use kudu_rs.BitSet.Laws.{get-updated, holds}

abbrev ten_bits : BitSet
ten_bits = 0 ∷ 2 ∷ []

bits : Unit {0}
unfolding with_capacity mask get insert remove
bits = tt

test_bitset : (with_capacity 16 ≡ 0 ∷ 0 ∷ []) × (get (0 ∷ 0 ∷ []) 0 ≡ ok false)
unfolding bits
test_bitset = (refl, refl)

insert_three : insert ten_bits 3 ≡ ok (8 ∷ 2 ∷ [])
unfolding bits
insert_three = refl

get_past_end : get ten_bits 16 ≡ panic
unfolding bits
get_past_end = refl

get-updated_example :
    (get ten_bits 9 ≡ ok (holds ten_bits 9))
    × ((s' : BitSet) × (insert ten_bits 9 ≡ ok s')
        × ((j : ℕ) → j < 16 → get s' j ≡ (if 9 == j then ok true else get ten_bits j)))
    × ((s' : BitSet) × (remove ten_bits 9 ≡ ok s')
        × ((j : ℕ) → j < 16 → get s' j ≡ (if 9 == j then ok false else get ten_bits j)))
get-updated_example = get-updated ten_bits 9 (omega arith)
