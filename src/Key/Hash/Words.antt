-- ===== src/Key/Hash/Words.antt =====
-- `murmur2_64` of src/key.rs computes MurmurHash64A.
use kudu_rs.Base.{
  All, List, [], ap, arith, length, le→ltb_false, ok, refl, suc, sym, zero, ℕ, ◌*◌, ◌<◌, ◌>>=◌, ◌^◌,
  ◌∙◌, ◌∷◌, ◌≡◌,
}
use kudu_rs.Base.Words.{IsByte}
use kudu_rs.ByteOrder.{LittleEndian, read_le}
use kudu_rs.Key.Hash.{byte_at, finish, mix, murmur2_64, murmur_loop, xor_byte}
use kudu_rs.Key.Hash.Reference.{
  enter, enter_rest, fold_high, hash_words, murmur_hash, number, times_prime, xor_bytes,
  xor_bytes-number,
}
use Prim.Native.Nat.{bit_xor}

first_byte :
    (b : ℕ) (bytes : List ℕ) (h : ℕ)
    → All IsByte (b ∷ bytes)
    → bit_xor (xor_bytes 1 bytes h) b ≡ bit_xor h (number (b ∷ bytes))
unfolding xor_bytes
first_byte b bytes h small =
    ap (bit_xor (xor_bytes 1 bytes h)) (once b)
    ∙ xor_bytes-number 0 (b ∷ bytes) h small
    ∙ ap (bit_xor h) (sym (once (number (b ∷ bytes))))
  where
    once : (x : ℕ) → x ≡ x * 2 ^ (8 * 0)
    once x = omega arith

entered :
    (b : ℕ) (bytes : List ℕ) (h : ℕ)
    → All IsByte (b ∷ bytes)
    → ok (fold_high (times_prime (fold_high (times_prime (bit_xor (xor_bytes 1 bytes h) b)))))
      ≡ ok (fold_high (times_prime (fold_high (enter_rest (b ∷ bytes) h))))
entered b bytes h small =
    ap (λ (x : ℕ). ok (fold_high (times_prime (fold_high (times_prime x)))))
      (first_byte b bytes h small)

module _ (little_endian : LittleEndian) where
  -- The loop and what follows it, with enough fuel.
  loop-hash_words :
      (fuel : ℕ) (bytes : List ℕ) (h : ℕ)
      → length bytes < fuel
      → All IsByte bytes
      → (murmur_loop little_endian fuel bytes h >>= λ r. finish r.0 r.1) ≡ ok (hash_words bytes h)
  unfolding murmur_loop finish xor_byte byte_at hash_words mix xor_bytes read_le number
  loop-hash_words zero bytes h enough small = absurd (omega arith)
  loop-hash_words (suc fuel) [] h enough small = refl
  loop-hash_words (suc fuel) (a ∷ []) h enough small = entered a [] h small
  loop-hash_words (suc fuel) (a ∷ b ∷ []) h enough small = entered a (b ∷ []) h small
  loop-hash_words (suc fuel) (a ∷ b ∷ c ∷ []) h enough small = entered a (b ∷ c ∷ []) h small
  loop-hash_words (suc fuel) (a ∷ b ∷ c ∷ d ∷ []) h enough small =
      entered a (b ∷ c ∷ d ∷ []) h small
  loop-hash_words (suc fuel) (a ∷ b ∷ c ∷ d ∷ e ∷ []) h enough small =
      entered a (b ∷ c ∷ d ∷ e ∷ []) h small
  loop-hash_words (suc fuel) (a ∷ b ∷ c ∷ d ∷ e ∷ f ∷ []) h enough small =
      entered a (b ∷ c ∷ d ∷ e ∷ f ∷ []) h small
  loop-hash_words (suc fuel) (a ∷ b ∷ c ∷ d ∷ e ∷ f ∷ g ∷ []) h enough small =
      entered a (b ∷ c ∷ d ∷ e ∷ f ∷ g ∷ []) h small
  loop-hash_words (suc fuel) (a ∷ b ∷ c ∷ d ∷ e ∷ f ∷ g ∷ i ∷ bytes) h enough small =
      rw
        (
          le→ltb_false (length (a ∷ b ∷ c ∷ d ∷ e ∷ f ∷ g ∷ i ∷ bytes)) 8 (omega arith),
          little_endian.reads_le 8 (a ∷ b ∷ c ∷ d ∷ e ∷ f ∷ g ∷ i ∷ bytes),
        )
        (loop-hash_words fuel bytes (enter h (number (a ∷ b ∷ c ∷ d ∷ e ∷ f ∷ g ∷ i ∷ [])))
          (omega arith) small.1.1.1.1.1.1.1.1)

  -- On bytes `murmur2_64` does not panic, and its hash is that of MurmurHash64A: the words of eight
  -- bytes enter first, then what is left of the bytes as one number, and then the hash is mixed.
  pub murmur2_64-murmur_hash :
      (bytes : List ℕ) (seed : ℕ)
      → All IsByte bytes
      → murmur2_64 little_endian bytes seed ≡ ok (murmur_hash bytes seed)
  unfolding murmur2_64 murmur_hash
  murmur2_64-murmur_hash bytes seed small =
      loop-hash_words (suc (length bytes)) bytes (bit_xor seed (times_prime (length bytes)))
        (omega arith) small
