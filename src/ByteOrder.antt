-- ===== src/ByteOrder.antt =====
-- The crate byteorder, which src/key.rs and src/value.rs write and read integers with. It is not part
-- of the repository: an interface states what its documentation promises of `n` bytes.
use kudu_rs.Base.{
  List, Outcome, [], ok, panic, suc, zero, ℕ, ◌%◌, ◌*◌, ◌+◌, ◌/◌, ◌>>=◌, ◌^◌, ◌∷◌, ◌≡◌,
}

-- The `n` low bytes of a number, the highest first.
unfoldable pub to_be : ℕ → ℕ → List ℕ
to_be zero x = []
to_be (suc n) x = (x / 256 ^ n % 256) ∷ to_be n x

-- The number that the first `n` bytes are; reading panics if there are fewer.
unfoldable pub read_be : ℕ → ℕ → List ℕ → Outcome ℕ
read_be zero acc bytes = ok acc
read_be (suc n) acc [] = panic
read_be (suc n) acc (b ∷ bytes) = read_be n (acc * 256 + b) bytes

pub record BigEndian : Type 0 where
  pub write : ℕ → ℕ → List ℕ
  pub read : ℕ → List ℕ → Outcome ℕ
  pub writes : (n x : ℕ) → write n x ≡ to_be n x
  pub reads : (n : ℕ) (bytes : List ℕ) → read n bytes ≡ read_be n 0 bytes

-- The lowest byte first.
unfoldable pub to_le : ℕ → ℕ → List ℕ
to_le zero x = []
to_le (suc n) x = (x % 256) ∷ to_le n (x / 256)

unfoldable pub read_le : ℕ → List ℕ → Outcome ℕ
read_le zero bytes = ok 0
read_le (suc n) [] = panic
read_le (suc n) (b ∷ bytes) = do x ← read_le n bytes; ok (b + 256 * x)

pub record LittleEndian : Type 0 where
  pub write_le : ℕ → ℕ → List ℕ
  pub read_from_le : ℕ → List ℕ → Outcome ℕ
  pub writes_le : (n x : ℕ) → write_le n x ≡ to_le n x
  pub reads_le : (n : ℕ) (bytes : List ℕ) → read_from_le n bytes ≡ read_le n bytes
