-- ===== src/Key/Binary.antt =====
-- `encode_binary` and `decode_binary` of src/key.rs: a string column that is not the last of its key
-- ends in two zero bytes, and a zero byte inside it is followed by a one.
pub mod Escape
pub mod RoundTrip
use kudu_rs.Base.{
  Bool, List, Option, Outcome, [], drop, err, get_elem?, if◌then◌else◌, is_zero, length, none, ok,
  panic, serialization, set, some, suc, take, zero, ℕ, ◌++◌, ◌-◌, ◌∷◌,
}

-- `value.split(|&x| x == 0)`: the pieces between the zero bytes, at least one.
unfoldable pub push_head : ℕ → List (List ℕ) → List (List ℕ)
push_head x [] = (x ∷ []) ∷ []
push_head x (p ∷ ps) = (x ∷ p) ∷ ps

unfoldable pub split_zero : List ℕ → List (List ℕ)
unfolding push_head
split_zero [] = [] ∷ []
split_zero (x ∷ xs) = let ps = split_zero xs in if is_zero x then [] ∷ ps else push_head x ps

-- The loop over the pieces.
unfoldable pub encode_pieces : List ℕ → List (List ℕ) → List ℕ
encode_pieces buf [] = buf
encode_pieces buf (p ∷ ps) = encode_pieces ((buf ++ p) ++ (0 ∷ 1 ∷ [])) ps

unfoldable pub encode_binary : List ℕ → Bool → List ℕ → List ℕ
unfolding split_zero encode_pieces
encode_binary value is_last buf =
    if is_last
    then buf ++ value
    else (let buf' = encode_pieces buf (split_zero value) in
        let len = length buf' in set buf' (len - 1) 0)

-- `key.iter().position(|&x| x == 0)`
unfoldable pub position_zero : List ℕ → Option ℕ
position_zero [] = none
position_zero (x ∷ xs) =
    let rest = position_zero xs in
    if is_zero x then some 0 else elim rest [ none ↦ none | some i ↦ some (suc i) ]

-- The loop of `decode_binary`; running out of fuel is shown as a panic.
unfoldable pub decode_loop : ℕ → List ℕ → List ℕ → Outcome (List ℕ × List ℕ)
unfolding position_zero
decode_loop zero key ret = panic
decode_loop (suc fuel) key ret = elim (position_zero key) [
  | none ↦ err serialization
  | some idx ↦ elim (get_elem? key (suc idx)) [
    | none ↦ err serialization
    | some b ↦
        let more = decode_loop fuel (drop (suc (suc idx)) key) (ret ++ take (suc idx) key) in
        elim b [
          | zero ↦ ok (drop (suc (suc idx)) key, ret ++ take idx key)
          | suc c ↦ elim c [ zero ↦ more | suc d ↦ err serialization ]
        ]
  ]
]

-- The remaining key and the value. A round of the loop takes two bytes at least.
unfoldable pub decode_binary : List ℕ → Bool → Outcome (List ℕ × List ℕ)
unfolding decode_loop
decode_binary key is_last = if is_last then ok ([], key) else decode_loop (suc (length key)) key []
