-- ===== src/Prelude/Numbers.antt =====
-- Integers over the native numbers, under the library's names, and saturating `u64` operations.
use Prim.Native.Nat.{ℕ, ◌+◌, ◌-◌, ◌*◌, ◌^◌, min}

pub data ℤ : Type 0 where
  pos : ℕ → ℤ
  negsuc : ℕ → ℤ

-- `u64::saturating_add`, `u64::saturating_mul`
abbrev pub add_u64 : ℕ → ℕ → ℕ
add_u64 a b = min (a + b) (2 ^ 64 - 1)

abbrev pub mul_u64 : ℕ → ℕ → ℕ
mul_u64 a b = min (a * b) (2 ^ 64 - 1)
