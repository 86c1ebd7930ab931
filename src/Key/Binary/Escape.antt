-- ===== src/Key/Binary/Escape.antt =====
-- What `encode_binary` writes and `decode_binary` reads (src/key.rs), byte by byte.
-- The bytes of a value before its end mark.
use kudu_rs.Base.{
  Bool-cases, List, Option, Option-cases, Outcome, [], ap, append-nil, append_assoc, arith, drop,
  err, false, get_elem?, if◌then◌else◌, inl, inr, is_zero, length, length-append, none, ok, panic,
  refl, serialization, set, some, suc, sym, take, zero, ℕ, ◌++◌, ◌-◌, ◌<◌, ◌>>=◌, ◌∙◌, ◌∷◌, ◌≡◌,
}
use kudu_rs.Key.Binary.{
  decode_binary, decode_loop, encode_binary, encode_pieces, position_zero, push_head, split_zero,
}

unfoldable pub body : List ℕ → List ℕ
body [] = []
body (x ∷ xs) = let rest = body xs in if is_zero x then 0 ∷ 1 ∷ rest else x ∷ rest

unfoldable pub escape : List ℕ → List ℕ
unfolding body
escape v = body v ++ (0 ∷ 0 ∷ [])

split_zero-cons : (v : List ℕ) → (p : List ℕ) × (ps : List (List ℕ)) × (split_zero v ≡ p ∷ ps)
unfolding split_zero push_head
split_zero-cons [] = ([], [], refl)
split_zero-cons (x ∷ xs) =
    let (p, ps, e) = split_zero-cons xs in
    elim (Bool-cases (is_zero x)) [
      | inl z ↦ ([], split_zero xs, rw z)
      | inr n ↦ (x ∷ p, ps, rw (n, e))
    ]

encode_pieces-push_head :
    (x : ℕ) (buf v : List ℕ)
    → encode_pieces buf (push_head x (split_zero v)) ≡ encode_pieces (buf ++ x ∷ []) (split_zero v)
unfolding encode_pieces push_head
encode_pieces-push_head x buf v =
    let (p, ps, e) = split_zero-cons v in
    rw e (
      ap (λ (t : List ℕ). encode_pieces (t ++ (0 ∷ 1 ∷ [])) ps) (sym (append_assoc buf (x ∷ []) p)))

encode_pieces-cons :
    (buf p : List ℕ) (ps : List (List ℕ))
    → encode_pieces buf (p ∷ ps) ≡ encode_pieces ((buf ++ p) ++ (0 ∷ 1 ∷ [])) ps
unfolding encode_pieces
encode_pieces-cons buf p ps = refl

encode_pieces-body :
    (v buf : List ℕ) → encode_pieces buf (split_zero v) ≡ buf ++ (body v ++ (0 ∷ 1 ∷ []))
unfolding split_zero body
encode_pieces-body [] buf = encode_pieces-cons buf [] [] ∙ unfold encode_pieces in rw append-nil
encode_pieces-body (zero ∷ xs) buf =
    encode_pieces-cons buf [] (split_zero xs)
    ∙ encode_pieces-body xs ((buf ++ []) ++ (0 ∷ 1 ∷ []))
    ∙ append_assoc (buf ++ []) (0 ∷ 1 ∷ []) _
    ∙ ap (λ (t : List ℕ). t ++ (0 ∷ 1 ∷ (body xs ++ (0 ∷ 1 ∷ [])))) (append-nil buf)
encode_pieces-body (suc x ∷ xs) buf =
    encode_pieces-push_head (suc x) buf xs
    ∙ encode_pieces-body xs (buf ++ suc x ∷ [])
    ∙ append_assoc buf (suc x ∷ []) _

set_last : (xs : List ℕ) (b c : ℕ) → set (xs ++ b ∷ []) (length xs) c ≡ xs ++ c ∷ []
set_last [] b c = refl
set_last (x ∷ xs) b c = ap (◌∷◌ x) (set_last xs b c)

-- `encode_binary` appends the escaped value to the buffer.
pub encode_binary-escape : (v buf : List ℕ) → encode_binary v false buf ≡ buf ++ escape v
unfolding encode_binary escape
encode_binary-escape v buf =
    ap (λ (t : List ℕ). set t (length t - 1) 0) (encode_pieces-body v buf ∙ split 1)
    ∙ ap (λ (n : ℕ). set (front ++ 1 ∷ []) n 0) last
    ∙ set_last front 1 0
    ∙ sym (split 0)
  where
    front : List ℕ
    front = (buf ++ body v) ++ 0 ∷ []

    split : (b : ℕ) → buf ++ (body v ++ (0 ∷ b ∷ [])) ≡ front ++ b ∷ []
    split b =
        sym
          (append_assoc (buf ++ body v) (0 ∷ []) (b ∷ []) ∙ append_assoc buf (body v) (0 ∷ b ∷ []))

    last : length (front ++ 1 ∷ []) - 1 ≡ length front
    last = omega (arith, length-append front (1 ∷ []))

-- The value that a key begins with, and the rest.
unfoldable pub unescape : List ℕ → Outcome (List ℕ × List ℕ)
unescape [] = err serialization
unescape (zero ∷ []) = err serialization
unescape (zero ∷ zero ∷ ys) = ok (ys, [])
unescape (zero ∷ suc zero ∷ ys) = do (rest, v) ← unescape ys; ok (rest, 0 ∷ v)
unescape (zero ∷ suc (suc b) ∷ ys) = err serialization
unescape (suc x ∷ xs) = do (rest, v) ← unescape xs; ok (rest, suc x ∷ v)

abbrev prepend : List ℕ → Outcome (List ℕ × List ℕ) → Outcome (List ℕ × List ℕ)
prepend ret m = m >>= λ r. ok (r.0, ret ++ r.1)

-- What may follow a zero byte.
data NextByte (o : Option ℕ) : Type 0 where
  missing : o ≡ none → NextByte o
  zero_byte : o ≡ some 0 → NextByte o
  one_byte : o ≡ some 1 → NextByte o
  other_byte : (c : ℕ) → o ≡ some (suc (suc c)) → NextByte o

next_byte : (o : Option ℕ) → NextByte o
next_byte none = missing refl
next_byte (some zero) = zero_byte refl
next_byte (some (suc zero)) = one_byte refl
next_byte (some (suc (suc c))) = other_byte c refl

decode_loop-skip :
    (fuel x : ℕ) (key ret : List ℕ)
    → decode_loop (suc fuel) (suc x ∷ key) ret ≡ decode_loop (suc fuel) key (ret ++ suc x ∷ [])
unfolding decode_loop
decode_loop-skip fuel x key ret = elim (Option-cases (position_zero key)) [
  | inl e ↦ rw (decode_loop, position_zero, e)
  | inr (i, e) ↦ elim (next_byte (get_elem? key (suc i))) [
    | missing g ↦ rw (decode_loop, position_zero, e, g)
    | zero_byte g ↦
        rw (decode_loop, position_zero, e, g)
          (ap (λ (t : List ℕ). ok (drop (suc (suc i)) key, t)) (shift (take i key)))
    | one_byte g ↦
        rw (decode_loop, position_zero, e, g)
          (ap (decode_loop fuel (drop (suc (suc i)) key)) (shift (take (suc i) key)))
    | other_byte c g ↦ rw (decode_loop, position_zero, e, g)
  ]
]
  where
    shift : (front : List ℕ) → ret ++ (suc x ∷ front) ≡ (ret ++ suc x ∷ []) ++ front
    shift front = sym (append_assoc ret (suc x ∷ []) front)

prepend-cons :
    (ret c : List ℕ) (m : Outcome (List ℕ × List ℕ))
    → prepend (ret ++ c) m ≡ prepend ret (m >>= λ r. ok (r.0, c ++ r.1))
prepend-cons ret c (ok r) = ap (λ (t : List ℕ). ok (r.0, t)) (append_assoc ret c r.1)
prepend-cons ret c (err e) = refl
prepend-cons ret c panic = refl

decode_loop-one :
    (f : ℕ) (ys ret : List ℕ)
    → decode_loop (suc f) (0 ∷ 1 ∷ ys) ret ≡ decode_loop f ys (ret ++ 0 ∷ [])
unfolding decode_loop
decode_loop-one f ys ret = refl

decode_loop-unescape :
    (f : ℕ) (key ret : List ℕ) → length key < f → decode_loop f key ret ≡ prepend ret (unescape key)
unfolding unescape
decode_loop-unescape zero key ret h = absurd (omega arith)
decode_loop-unescape (suc f) [] ret h = unfold decode_loop in refl
decode_loop-unescape (suc f) (zero ∷ []) ret h = unfold decode_loop in refl
decode_loop-unescape (suc f) (zero ∷ zero ∷ ys) ret h = unfold decode_loop in refl
decode_loop-unescape (suc f) (zero ∷ suc zero ∷ ys) ret h =
    decode_loop-one f ys ret
    ∙ decode_loop-unescape f ys (ret ++ 0 ∷ []) (omega arith)
    ∙ prepend-cons ret (0 ∷ []) (unescape ys)
decode_loop-unescape (suc f) (zero ∷ suc (suc b) ∷ ys) ret h = unfold decode_loop in refl
decode_loop-unescape (suc f) (suc x ∷ xs) ret h =
    decode_loop-skip f x xs ret
    ∙ decode_loop-unescape (suc f) xs (ret ++ suc x ∷ []) (omega arith)
    ∙ prepend-cons ret (suc x ∷ []) (unescape xs)

-- The loop has fuel enough: `decode_binary` reads the bytes one by one.
pub decode_binary-unescape : (key : List ℕ) → decode_binary key false ≡ unescape key
unfolding decode_binary
decode_binary-unescape key =
    decode_loop-unescape (suc (length key)) key [] (omega arith) ∙ whole (unescape key)
  where
    whole : (m : Outcome (List ℕ × List ℕ)) → prepend [] m ≡ m
    whole (ok r) = refl
    whole (err e) = refl
    whole panic = refl

-- The bytes of a value with its end mark are read back, whatever follows.
pub unescape-escape : (v rest : List ℕ) → unescape (escape v ++ rest) ≡ ok (rest, v)
unfolding unescape escape
unescape-escape [] rest = refl
unescape-escape (zero ∷ xs) rest = rw (unescape-escape xs rest)
unescape-escape (suc x ∷ xs) rest = rw (unescape-escape xs rest)

abbrev pub Inverts : List ℕ → Outcome (List ℕ × List ℕ) → Type 0
Inverts key (ok r) = key ≡ escape r.1 ++ r.0
Inverts key (err e) = e ≡ serialization
Inverts key panic = ⊥

Inverts-escape :
    (x : ℕ) (c key : List ℕ) (m : Outcome (List ℕ × List ℕ))
    → ((v : List ℕ) → escape (x ∷ v) ≡ c ++ escape v)
    → Inverts key m
    → Inverts (c ++ key) (m >>= λ r. ok (r.0, x ∷ r.1))
Inverts-escape x c key (ok r) h i = rw (h, i) (sym (append_assoc c (escape r.1) r.0))
Inverts-escape x c key (err e) h i = i
Inverts-escape x c key panic h i = i

-- The only bytes that are read as a value are the escaped value; the only error is a
-- serialization error.
pub unescape-Inverts : (key : List ℕ) → Inverts key (unescape key)
unfolding unescape
unescape-Inverts [] = refl
unescape-Inverts (zero ∷ []) = refl
unescape-Inverts (zero ∷ zero ∷ ys) = unfold escape in refl
unescape-Inverts (zero ∷ suc zero ∷ ys) =
    Inverts-escape 0 (0 ∷ 1 ∷ []) ys (unescape ys) (λ v. unfold escape in refl)
      (unescape-Inverts ys)
unescape-Inverts (zero ∷ suc (suc b) ∷ ys) = refl
unescape-Inverts (suc x ∷ xs) =
    Inverts-escape (suc x) (suc x ∷ []) xs (unescape xs) (λ v. unfold escape in refl)
      (unescape-Inverts xs)
