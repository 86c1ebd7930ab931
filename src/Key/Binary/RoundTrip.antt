-- ===== src/Key/Binary/RoundTrip.antt =====
-- `encode_binary` and `decode_binary` of src/key.rs against each other and against the order of
-- values.
use kudu_rs.Base.{
  Bool, List, Outcome, [], append-nil, arith, err, false, if◌then◌else◌, ok, panic, refl,
  serialization, suc, true, zero, ℕ, ◌++◌, ◌∙◌, ◌∷◌, ◌≡◌,
}
use kudu_rs.Bytes.{cmp_bytes, then_cmp}
use kudu_rs.Key.Binary.{decode_binary, encode_binary}
use kudu_rs.Key.Binary.Escape.{
  Inverts, decode_binary-unescape, encode_binary-escape, escape, unescape, unescape-Inverts,
  unescape-escape,
}

-- A value that is not the last of its key and that is appended to any buffer adds bytes that
-- `decode_binary` reads back as this value, whatever bytes follow them; a last value adds its own
-- bytes, and `decode_binary` reads them back with nothing left.
pub decode-encode_binary :
    (v buf : List ℕ) (is_last : Bool)
    → (e : List ℕ) × (encode_binary v is_last buf ≡ buf ++ e)
      × ((rest : List ℕ)
          → (if is_last then rest ≡ [] else Unit {0})
          → decode_binary (e ++ rest) is_last ≡ ok (rest, v))
decode-encode_binary v buf false = (
  escape v,
  encode_binary-escape v buf,
  λ rest h. decode_binary-unescape (escape v ++ rest) ∙ unescape-escape v rest,
)
decode-encode_binary v buf true =
    (v, unfold encode_binary in refl, λ rest h. unfold decode_binary in rw (h, append-nil))

-- What a run of `decode_binary` says of the bytes: they are the encoding of the value that it read
-- followed by the rest, or it fails with a serialization error.
abbrev pub Reads : List ℕ → Outcome (List ℕ × List ℕ) → Type 0
Reads key (ok r) = key ≡ encode_binary r.1 false [] ++ r.0
Reads key (err e) = e ≡ serialization
Reads key panic = ⊥

-- On any bytes `decode_binary` of a column that is not the last ends without a panic: it reads a
-- value only if the bytes begin with exactly what `encode_binary` writes for it, and fails with a
-- serialization error otherwise.
pub decode_binary-Reads : (key : List ℕ) → Reads key (decode_binary key false)
decode_binary-Reads key =
    rw decode_binary-unescape (with_code (unescape key) (unescape-Inverts key))
  where
    with_code : (m : Outcome (List ℕ × List ℕ)) → Inverts key m → Reads key m
    with_code (ok r) h = rw (encode_binary-escape r.1 []) h
    with_code (err e) h = h
    with_code panic h = h

cmp_bytes-escape :
    (a b r s : List ℕ)
    → cmp_bytes (escape a ++ r) (escape b ++ s) ≡ then_cmp (cmp_bytes a b) (cmp_bytes r s)
unfolding escape cmp_bytes
cmp_bytes-escape [] [] r s = refl
cmp_bytes-escape [] (zero ∷ ys) r s = refl
cmp_bytes-escape [] (suc y ∷ ys) r s = ground arith
cmp_bytes-escape (zero ∷ xs) [] r s = refl
cmp_bytes-escape (suc x ∷ xs) [] r s = ground arith
cmp_bytes-escape (zero ∷ xs) (zero ∷ ys) r s = cmp_bytes-escape xs ys r s
cmp_bytes-escape (zero ∷ xs) (suc y ∷ ys) r s = ground arith
cmp_bytes-escape (suc x ∷ xs) (zero ∷ ys) r s = ground arith
cmp_bytes-escape (suc x ∷ xs) (suc y ∷ ys) r s = ground (arith, cmp_bytes-escape xs ys r s)

-- The encoding of values that are not the last of their key keeps their order: encoded values,
-- with anything behind them, compare as the values do, and where these are equal as what is behind.
pub cmp_bytes-encode_binary :
    (a b r s : List ℕ)
    → cmp_bytes (encode_binary a false [] ++ r) (encode_binary b false [] ++ s)
      ≡ then_cmp (cmp_bytes a b) (cmp_bytes r s)
cmp_bytes-encode_binary a b r s =
    rw (encode_binary-escape a [], encode_binary-escape b []) (cmp_bytes-escape a b r s)
