-- ===== src/Base/Words.antt =====
-- Machine words: unsigned arithmetic that wraps, a signed word as its bit pattern, byte masks.
use Prim.Native.Nat.{ℕ, zero, suc, ◌+◌, ◌-◌, ◌/◌, ◌%◌, ◌≤◌, min, digits, bit_and, bit_and-bitwise}
use native.Mathlib.Omega.{arith}

-- a + b and a - b on w bits
abbrev pub add_8 : ℕ → ℕ → ℕ
add_8 a b = (a + b) % 0x100

abbrev pub sub_8 : ℕ → ℕ → ℕ
sub_8 a b = (a + 0x100 - b) % 0x100

abbrev pub add_16 : ℕ → ℕ → ℕ
add_16 a b = (a + b) % 0x1_0000

abbrev pub sub_16 : ℕ → ℕ → ℕ
sub_16 a b = (a + 0x1_0000 - b) % 0x1_0000

abbrev pub add_32 : ℕ → ℕ → ℕ
add_32 a b = (a + b) % 0x1_0000_0000

abbrev pub add_64 : ℕ → ℕ → ℕ
add_64 a b = (a + b) % 0x1_0000_0000_0000_0000

abbrev pub sub_64 : ℕ → ℕ → ℕ
sub_64 a b = (a + 0x1_0000_0000_0000_0000 - b % 0x1_0000_0000_0000_0000) % 0x1_0000_0000_0000_0000

digits-le : (n a b : ℕ) → digits (λ b. zero) min n a b ≤ b
digits-le zero a b = omega arith
digits-le (suc n) zero b = omega arith
digits-le (suc n) (suc a) b = omega (arith, digits-le n (suc a / 2) (b / 2))

-- `a & b` is at most `b`.
pub bit_and-le : (a b : ℕ) → bit_and a b ≤ b
bit_and-le a b = rw (bit_and-bitwise a b) (digits-le a a b)
