-- ===== src/Common/Words.antt =====
-- Unsigned machine words as native numbers, wrap-around written out.
use Prim.Native.Nat.{ℕ, ◌+◌, ◌-◌, ◌%◌, ◌^◌, ◌<◌}
use mathlib.Core.Path.{◌≡◌}
use native.Mathlib.Omega.{arith}

abbrev pub IsU8 : ℕ → Type 0
IsU8 v = v < 2 ^ 8

abbrev pub IsU32 : ℕ → Type 0
IsU32 v = v < 2 ^ 32

abbrev pub IsU64 : ℕ → Type 0
IsU64 v = v < 2 ^ 64

-- `uint64_t` sum and difference. The modulus is added first, since `-` on ℕ stops at 0.
abbrev pub add64 : ℕ → ℕ → ℕ
add64 a b = (a + b) % 2 ^ 64

abbrev pub sub64 : ℕ → ℕ → ℕ
sub64 a b = (a + 2 ^ 64 - b % 2 ^ 64) % 2 ^ 64

-- A counter kept modulo the word stays the counted sum modulo the word.
pub add64-mod : (s q : ℕ) → add64 (s % 2 ^ 64) q ≡ (s + q) % 2 ^ 64
add64-mod s q = omega arith

pub sub64-mod : (s q : ℕ) → sub64 ((s + q) % 2 ^ 64) q ≡ s % 2 ^ 64
sub64-mod s q = omega arith
