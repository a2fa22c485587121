-- ===== src/Manifest/Ranges.antt =====
-- Byte range specifiers, `start-end` (src/manifest/types.rs).
use dashplay_rs.Prelude.{
  ℕ, ◌+◌, ◌-◌, ◌*◌, ◌^◌, true, false, ◌&&◌, List, [], ◌∷◌, ◌++◌, ltb, leb, ◌==◌, if◌then◌else◌,
  Option, none, some, Result, ok, err,
}
use dashplay_rs.Bytes.{Bytes}
use dashplay_rs.Manifest.Types.{ManifestError, ByteRange, invalid_byte_range}

-- `str::split` at a byte: at least one part.
unfoldable pub split_at : ℕ → Bytes → Bytes → List Bytes
split_at c part [] = part ∷ []
split_at c part (x ∷ xs) = elim (x == c) [
  | true ↦ part ∷ split_at c [] xs
  | false ↦ split_at c (part ++ (x ∷ [])) xs
]

-- The digits of `u64::from_str` behind what has been read; `none` where it fails.
unfoldable pub digits_from : ℕ → Bytes → Option ℕ
digits_from acc [] = some acc
digits_from acc (x ∷ xs) =
    let next = acc * 10 + (x - b'0') in
    let rest = digits_from next xs in
    if leb b'0' x && leb x b'9' && ltb next (2 ^ 64) then rest else none

unsigned : Bytes → Option ℕ
unfolding digits_from
unsigned [] = none
unsigned (x ∷ xs) = digits_from 0 (x ∷ xs)

-- `u64::from_str`: one leading `+` is taken.
unfoldable pub parse_u64 : Bytes → Option ℕ
unfolding unsigned
parse_u64 [] = none
parse_u64 (x ∷ xs) = if x == b'+' then unsigned xs else unsigned (x ∷ xs)

ordered : Option ℕ → Option ℕ → Result ManifestError ByteRange
ordered (some start) (some end) =
    if ltb end start then err invalid_byte_range else ok (record { start = start; end = end })
ordered _ _ = err invalid_byte_range

range_of : List Bytes → Result ManifestError ByteRange
unfolding ordered parse_u64
range_of (start ∷ end ∷ []) = ordered (parse_u64 start) (parse_u64 end)
range_of _ = err invalid_byte_range

unfoldable pub parse_byte_range : Bytes → Result ManifestError ByteRange
unfolding range_of split_at
parse_byte_range range = range_of (split_at b'-' [] range)
