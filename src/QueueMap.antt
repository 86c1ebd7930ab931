-- ===== src/QueueMap.antt =====
-- src/queue_map.rs: `QueueMap`, a FIFO queue whose elements have consecutive keys and that can be
-- read and written by key. `VecDeque` is a list with its front at the head, and `usize` arithmetic
-- wraps at 2 ^ 64.
pub mod View
pub mod Slots
pub mod Insert
pub mod Remove
pub mod Pop
pub mod Entries
pub mod Calls
mod Runs
use kudu_rs.Base.{
  Bool, List, Option, Outcome, [], false, get_elem?, if◌then◌else◌, leb, length, ltb, none, ok,
  panic, set, some, suc, true, zero, ℕ, ◌++◌, ◌-◌, ◌==◌, ◌||◌, ◌∷◌,
}
use kudu_rs.Base.Words.{add_usize, sub_usize}

pub record QueueMap {ℓ} (T : Type ℓ) : Type ℓ where
  pub queue : List (Option T)
  pub next_key : ℕ
  pub len : ℕ

module _ {ℓ} {T : Type ℓ} where
  unfoldable pub new : QueueMap T
  new = record { queue = []; next_key = 0; len = 0 }

  -- The capacity is a hint to the allocator only.
  unfoldable pub with_capacity : ℕ → QueueMap T
  with_capacity capacity = record { queue = []; next_key = 0; len = 0 }

  -- `while let Some(&None) = self.queue.front() { self.queue.pop_front(); }`
  unfoldable pub trim_front : List (Option T) → List (Option T)
  trim_front (none ∷ q) = trim_front q
  trim_front [] = []
  trim_front (some v ∷ q) = some v ∷ q

  unfoldable pub key_offset : QueueMap T → ℕ
  key_offset s = sub_usize s.next_key (length s.queue)

  unfoldable pub push : QueueMap T → T → QueueMap T × ℕ
  push s value =
      let s' : QueueMap T = record s {
        queue = s.queue ++ some value ∷ [];
        next_key = add_usize s.next_key 1;
        len = add_usize s.len 1;
      } in
      (s', s.next_key)

  unfoldable pub push_with : QueueMap T → (ℕ → T) → QueueMap T
  push_with s f = record s {
    queue = s.queue ++ some (f s.next_key) ∷ [];
    next_key = add_usize s.next_key 1;
    len = add_usize s.len 1;
  }

  -- `pop_front().map(Option::unwrap)` panics at an empty slot.
  unfoldable pub pop : QueueMap T → Outcome (QueueMap T × Option (ℕ × T))
  pop s = elim s.queue [
    | [] ↦ ok (s, none)
    | e ∷ q ↦ elim e [
      | none ↦ panic
      | some val ↦
          ok (record s { queue = trim_front q; len = sub_usize s.len 1 }, some (key_offset s, val))
    ]
  ]

  abbrev pub is_some : Option T → Bool
  is_some none = false
  is_some (some v) = true

  -- The index of a key's slot. `self.queue[offset]` panics out of bounds.
  unfoldable pub offset : QueueMap T → ℕ → ℕ
  offset s key = sub_usize (length s.queue) (sub_usize s.next_key key)

  unfoldable pub remove : QueueMap T → ℕ → Outcome (QueueMap T × Option T)
  unfolding offset
  remove s key =
      if leb s.next_key key || ltb key (key_offset s)
      then ok (s, none)
      else elim (get_elem? s.queue (offset s key)) [
        | none ↦ panic
        | some val ↦
            let s' : QueueMap T = record s {
              queue = trim_front (set s.queue (offset s key) none);
              len = if is_some val then sub_usize s.len 1 else s.len;
            } in
            ok (s', val)
      ]

  -- The two loops of `insert`, which run `n` times.
  unfoldable pub push_back_empty : ℕ → List (Option T) → List (Option T)
  push_back_empty zero q = q
  push_back_empty (suc n) q = push_back_empty n (q ++ none ∷ [])

  unfoldable pub push_front_empty : ℕ → List (Option T) → List (Option T)
  push_front_empty zero q = q
  push_front_empty (suc n) q = push_front_empty n (none ∷ q)

  unfoldable pub insert : QueueMap T → ℕ → T → Outcome (QueueMap T × Option T)
  unfolding offset
  insert s key value =
      if leb s.next_key key
      then (let s' : QueueMap T = record s {
        queue = push_back_empty (key - s.next_key) s.queue ++ some value ∷ [];
        next_key = add_usize key 1;
        len = add_usize s.len 1;
      } in
          ok (s', none))
      else if ltb key (key_offset s)
      then (let n = key_offset s - add_usize key 1 in
          let s' : QueueMap T = record s {
            queue = some value ∷ push_front_empty n s.queue;
            len = add_usize s.len 1;
          } in
          ok (s', none))
      else elim (get_elem? s.queue (offset s key)) [
        | none ↦ panic
        | some val ↦
            let s' : QueueMap T = record s {
              queue = set s.queue (offset s key) (some value);
              len = if is_some val then s.len else add_usize s.len 1;
            } in
            ok (s', val)
      ]

  -- `Index::index`: the slot's `as_ref().unwrap()`.
  unfoldable pub index : QueueMap T → ℕ → Outcome T
  unfolding offset
  index s key = elim (get_elem? s.queue (offset s key)) [
    | none ↦ panic
    | some e ↦ elim e [ none ↦ panic | some v ↦ ok v ]
  ]

  unfoldable pub is_empty : QueueMap T → Bool
  is_empty s = s.len == 0

  unfoldable pub front_key : QueueMap T → Option ℕ
  front_key s = if is_empty s then none else some (key_offset s)

  unfoldable pub back_key : QueueMap T → Option ℕ
  back_key s = if is_empty s then none else some (sub_usize s.next_key 1)

-- The four iterators (`Iter`, `IterMut`, `IntoIter`, `Drain`) have this state and this `next`.
pub record Iter {ℓ} (T : Type ℓ) : Type ℓ where
  pub key : ℕ
  pub itr : List (Option T)

module _ {ℓ} {T : Type ℓ} where
  unfoldable pub iter : QueueMap T → Iter T
  iter s = record { key = key_offset s; itr = s.queue }

  -- `drain` hands out every element, and leaves an empty queue with the same next key.
  unfoldable pub drain : QueueMap T → QueueMap T × Iter T
  drain s = (record s { queue = []; len = 0 }, record { key = key_offset s; itr = s.queue })

  -- The loop of `next`, from the key and the slots that are left.
  unfoldable pub next_from : ℕ → List (Option T) → Option (ℕ × T) × Iter T
  next_from key [] = (none, record { key = add_usize key 1; itr = [] })
  next_from key (some v ∷ q) = (some (key, v), record { key = add_usize key 1; itr = q })
  next_from key (none ∷ q) = next_from (add_usize key 1) q

  unfoldable pub next : Iter T → Option (ℕ × T) × Iter T
  unfolding next_from
  next it = next_from it.key it.itr

  -- `collect`, with fuel: `next` is called until it returns `None`.
  unfoldable pub collect : ℕ → Iter T → List (ℕ × T)
  collect zero it = []
  collect (suc fuel) it =
      let (r, it') = next it in elim r [ none ↦ [] | some kv ↦ kv ∷ collect fuel it' ]
