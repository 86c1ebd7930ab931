-- ===== src/Base/Words.antt =====
-- `usize` arithmetic of a 64-bit target, with its wrap-around, and the ranges of bytes and words.
use Prim.Native.Nat.{ℕ, ◌+◌, ◌-◌, ◌%◌, ◌^◌, ◌<◌, ◌≤◌}
use mathlib.Core.Path.{◌≡◌}
use native.Mathlib.Omega.{arith}

abbrev pub add_usize : ℕ → ℕ → ℕ
add_usize a b = (a + b) % 2 ^ 64

abbrev pub sub_usize : ℕ → ℕ → ℕ
sub_usize a b = (a + 2 ^ 64 - b) % 2 ^ 64

abbrev pub IsByte : ℕ → Type 0
IsByte b = b < 256

abbrev pub IsUsize : ℕ → Type 0
IsUsize n = n < 2 ^ 64

pub sub_usize_lem : (a b : ℕ) → b ≤ a → IsUsize a → sub_usize a b ≡ a - b
sub_usize_lem a b h w = omega arith
