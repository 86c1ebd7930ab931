-- ===== src/Key/Ints.antt =====
-- The integer columns of src/key.rs: big-endian bytes with the sign bit flipped. A signed integer of
-- `w` bits is its two's complement pattern, a number below 2 ^ w.
pub mod Order
pub mod Signed
use kudu_rs.Base.{List, Outcome, drop, ok, ℕ, ◌*◌, ◌++◌, ◌-◌, ◌>>=◌, ◌^◌}
use kudu_rs.ByteOrder.{BigEndian}
use Prim.Native.Nat.{bit_xor}

-- `x ^ iN::MIN` for an integer of `n` bytes
unfoldable pub flip_sign : ℕ → ℕ → ℕ
flip_sign n x = bit_xor x (2 ^ (8 * n - 1))

-- The arms of `encode_column` and `decode_column` for an integer of `n` bytes.
module _ (big_endian : BigEndian) where
  unfoldable pub encode_int : ℕ → ℕ → List ℕ → List ℕ
  unfolding flip_sign
  encode_int n x buf = buf ++ big_endian.write n (flip_sign n x)

  unfoldable pub decode_int : ℕ → List ℕ → Outcome (List ℕ × ℕ)
  unfolding flip_sign
  decode_int n key = do x ← big_endian.read n key; ok (drop n key, flip_sign n x)
