-- ===== src/QueueMap/Runs.antt =====
-- Runs of the operations of src/queue_map.rs, and the theorems at concrete inputs.
use kudu_rs.Base.{List, [], arith, length, none, ok, panic, refl, some, ℕ, ◌>>=◌, ◌∷◌, ◌≡◌}
use kudu_rs.QueueMap.{
  QueueMap, back_key, collect, drain, index, insert, is_empty, iter, key_offset, new, pop, push,
  push_back_empty, push_front_empty, push_with, remove, trim_front,
}
use kudu_rs.QueueMap.Calls.{
  Call, Dict, Tracks, apply_dict, insert_at, push_back, remove_at, run, run-Tracks, run_dict,
}
use kudu_rs.QueueMap.Entries.{IsAscending, collect-iter, lookup}
use kudu_rs.QueueMap.Insert.{Wrote, insert-Wrote}
use kudu_rs.QueueMap.Pop.{Popped, pop-Popped, pop-insert_sparse}
use kudu_rs.QueueMap.Remove.{Cleared, remove-Cleared}
use kudu_rs.QueueMap.View.{IsValid, at, count_some, find}

program : Unit {0}
unfolding new push push_with pop remove insert index trim_front key_offset push_back_empty
    push_front_empty
program = tt

-- The keys 5 and 7 hold elements, the next key is 8.
abbrev two_items : QueueMap ℕ
two_items = record { queue = some 50 ∷ none ∷ some 70 ∷ []; next_key = 8; len = 2 }

two_items-IsValid : IsValid two_items
unfolding count_some
two_items-IsValid = record { bounded = omega arith; small = omega arith; counted = refl }

insert_front :
    insert two_items 3 30
    ≡ ok (record { queue = some 30 ∷ none ∷ two_items.queue; next_key = 8; len = 3 }, none)
unfolding program
insert_front = refl

pop_two : pop two_items ≡ ok (record { queue = some 70 ∷ []; next_key = 8; len = 1 }, some (5, 50))
unfolding program
pop_two = refl

remove_back :
    remove two_items 7
    ≡ ok (record { queue = some 50 ∷ none ∷ none ∷ []; next_key = 8; len = 1 }, some 70)
unfolding program
remove_back = refl

-- The last key stays `back_key` though nothing is stored at it.
back_key_stale :
    back_key {T = ℕ} (record { queue = some 50 ∷ none ∷ none ∷ []; next_key = 8; len = 1 }) ≡ some 7
unfolding back_key is_empty
back_key_stale = refl

sparse_insert :
    insert (new {T = ℕ}) 3 30
    ≡ ok (record { queue = none ∷ none ∷ none ∷ some 30 ∷ []; next_key = 4; len = 1 }, none)
unfolding program
sparse_insert = refl

insert-Wrote_example :
    (s' : QueueMap ℕ) × (insert two_items 6 60 ≡ ok (s', at two_items 6)) × Wrote two_items 6 60 s'
insert-Wrote_example = insert-Wrote two_items 6 60 two_items-IsValid (omega arith)

remove-Cleared_example :
    (s' : QueueMap ℕ) × (remove two_items 5 ≡ ok (s', at two_items 5)) × Cleared two_items 5 s'
remove-Cleared_example = remove-Cleared two_items 5 two_items-IsValid

pop-Popped_example : Popped two_items (pop two_items)
pop-Popped_example = pop-Popped two_items two_items-IsValid tt

pop-insert_sparse_example : (insert (new {T = ℕ}) 3 30 >>= λ r. pop r.0) ≡ panic
unfolding new
pop-insert_sparse_example = pop-insert_sparse new 3 30 refl (omega arith)

abbrev filled : QueueMap ℕ
filled = record { queue = some 30 ∷ none ∷ two_items.queue; next_key = 8; len = 3 }

collect-iter_example :
    let l = collect 4 (iter two_items) in
    IsAscending 5 l
    × ((k : ℕ) → lookup k l ≡ at two_items k)
    × (length l ≡ 2)
    × (collect 4 (drain two_items).1 ≡ l)
    × IsValid (drain two_items).0
    × ((k : ℕ) → at (drain two_items).0 k ≡ none)
collect-iter_example = collect-iter two_items two_items-IsValid

abbrev calls : List (Call ℕ)
calls = insert_at 3 30 ∷ push_back 40 ∷ remove_at 3 ∷ insert_at 3 31 ∷ []

abbrev empty_dict : Dict ℕ
empty_dict = record { holds = λ k. none; next = 0 }

new-Tracks : Tracks new empty_dict
unfolding new at find count_some
new-Tracks = record {
  valid = record { bounded = omega arith; small = omega arith; counted = refl };
  next_key = refl;
  same = λ k. refl;
}

run-Tracks_example :
    (s' : QueueMap ℕ) × (run new calls ≡ ok (s', (run_dict empty_dict calls).1))
    × Tracks s' (run_dict empty_dict calls).0
unfolding apply_dict
run-Tracks_example = run-Tracks calls new empty_dict new-Tracks (omega arith)
