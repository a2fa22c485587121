-- ===== src/Bytes.antt =====
-- Byte strings as lists of numbers, and the big-endian integers that the binary formats hold.
use dashplay_rs.Prelude.{
  ℕ, ◌+◌, ◌*◌, ◌/◌, ◌%◌, ◌^◌, ◌<◌, ◌≡◌, Bool, true, false, ◌&&◌, List, [], ◌∷◌, ◌++◌, arith, ◌==◌,
  take, drop, length, Option, none, some, leb, if◌then◌else◌,
}

abbrev pub Bytes : Type 0
Bytes = List ℕ

-- `data[offset..offset + n]`
abbrev pub slice : Bytes → ℕ → ℕ → Bytes
slice bytes offset n = take n (drop offset bytes)

abbrev be_from : ℕ → Bytes → ℕ
be_from acc [] = acc
be_from acc (b ∷ bs) = be_from (acc * 256 + b) bs

-- `u32::from_be_bytes`, `u64::from_be_bytes`, by the length of the slice
abbrev pub be : Bytes → ℕ
be bs = be_from 0 bs

-- `u32::to_be_bytes`
abbrev pub be_bytes4 : ℕ → Bytes
be_bytes4 n = n / 2 ^ 24 % 256 ∷ n / 2 ^ 16 % 256 ∷ n / 2 ^ 8 % 256 ∷ n % 256 ∷ []

abbrev pub eq_bytes : Bytes → Bytes → Bool
eq_bytes [] [] = true
eq_bytes [] (b ∷ bs) = false
eq_bytes (a ∷ as') [] = false
eq_bytes (a ∷ as') (b ∷ bs) = a == b && eq_bytes as' bs

-- `data.get(start..start + n)`
abbrev pub get_range : Bytes → ℕ → ℕ → Option Bytes
get_range bytes start n =
    if leb (start + n) (length bytes) then some (slice bytes start n) else none

-- Addition on `usize` in a release build: 64 bits, wrapping.
abbrev pub usize_add : ℕ → ℕ → ℕ
usize_add a b = (a + b) % 2 ^ 64

pub be-be_bytes4 : (n : ℕ) → n < 2 ^ 32 → be (be_bytes4 n) ≡ n
be-be_bytes4 n h = omega arith

-- `u16::to_be_bytes`, `u64::to_be_bytes`
abbrev pub be_bytes2 : ℕ → Bytes
be_bytes2 n = n / 2 ^ 8 % 256 ∷ n % 256 ∷ []

abbrev pub be_bytes8 : ℕ → Bytes
be_bytes8 n = be_bytes4 (n / 2 ^ 32) ++ be_bytes4 (n % 2 ^ 32)

pub be-be_bytes2 : (n : ℕ) → n < 2 ^ 16 → be (be_bytes2 n) ≡ n
be-be_bytes2 n h = omega arith

pub be-be_bytes8 : (n : ℕ) → n < 2 ^ 64 → be (be_bytes8 n) ≡ n
be-be_bytes8 n h = omega arith
