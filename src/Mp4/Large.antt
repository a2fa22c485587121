-- ===== src/Mp4/Large.antt =====
-- Boxes with a 64-bit size (`size32 == 1`): where the accumulator reads their type, and sums of
-- sizes that wrap.
use dashplay_rs.Prelude.{
  ℕ, zero, suc, ◌+◌, ◌-◌, ◌*◌, ◌/◌, ◌%◌, ◌^◌, ◌<◌, ◌≤◌, ◌≡◌, refl, sym, ap, ◌∙◌, false, none, some,
  [], ◌∷◌, ◌++◌, ◌==◌, arith, length, take, drop, length-append, ltb, le→ltb, drop-length,
  drop_past, le→leb, append-nil, take-length,
}
use dashplay_rs.Bytes.{Bytes, be_bytes4, eq_bytes, usize_add}
use dashplay_rs.Mp4.Header.{read_box_size, box_type_at}
use dashplay_rs.Mp4.Chunks.{
  moof, mdat, round_at, search_round, go_on, spins, skip_to_moof, take_pair, after_search,
  try_take_fragment,
}
use dashplay_rs.Mp4.Wire.{Box, size, encode, is_moof}
use dashplay_rs.Mp4.Prefix.{read_box_size-encode}
use dashplay_rs.Mp4.Rounds.{length-encode, round_complete}
use dashplay_rs.Mp4.Fragments.{skip-go_on}

-- The header of a box with a 64-bit size: its type `k`, and the two words of the size.
abbrev pub large_header : Box → ℕ → ℕ → Bytes
large_header k high low =
    0 ∷ 0 ∷ 0 ∷ 1 ∷ k.k0 ∷ k.k1 ∷ k.k2 ∷ k.k3 ∷ be_bytes4 high ++ be_bytes4 low

module _ (pre rest : Bytes) (k : Box) (high low : ℕ) (fits : high < 2 ^ 32)
    (fits_low : low < 2 ^ 32) where
  total : length (pre ++ (large_header k high low ++ rest)) ≡ length pre + 16 + length rest
  total = length-append pre (large_header k high low ++ rest) ∙ omega arith

  pub read_box_size-large :
      read_box_size (pre ++ (large_header k high low ++ rest)) (length pre)
      ≡ some (high * 2 ^ 32 + low, 16)
  unfolding read_box_size
  read_box_size-large =
      rw
        (
          drop-length pre (large_header k high low ++ rest),
          le→ltb (length (pre ++ (large_header k high low ++ rest))) (length pre + 8)
              (omega (arith, total)),
          le→ltb (length (pre ++ (large_header k high low ++ rest))) (length pre + 16)
              (omega (arith, total)),
          drop_past pre (large_header k high low ++ rest) 8,
        )
        (ap (λ n. some (n, 16)) (omega arith))

  -- The type of a box with a 64-bit size is read from the low word of the size, not from its type.
  pub box_type_at-large :
      box_type_at (pre ++ (large_header k high low ++ rest)) (length pre) 16 ≡ some (be_bytes4 low)
  unfolding box_type_at
  box_type_at-large =
      let at : length pre + 16 - 4 ≡ length pre + 12 = omega arith in
      rw (
        at,
        drop_past pre (large_header k high low ++ rest) 12,
        le→leb (length pre + 12 + 4) (length (pre ++ (large_header k high low ++ rest)))
            (omega (arith, total)),
      )

-- A box that is no `moof`, and behind it the header of one whose size brings the sum back to 0.
abbrev pub wrapping_stream : Box → Box → Bytes → Bytes
wrapping_stream b k rest = encode b ++ (large_header k (2 ^ 32 - 1) (2 ^ 32 - size b) ++ rest)

top_byte : (w : ℕ) → 2 ^ 31 < w → w < 2 ^ 32 → eq_bytes (be_bytes4 w) moof ≡ false
top_byte w h k = let other : (w / 2 ^ 24 % 256 == b'm') ≡ false = ground arith in rw other

module _ (b k : Box) (rest : Bytes) (small : size b < 2 ^ 31)
    (short : length (wrapping_stream b k rest) < 2 ^ 63) (other : is_moof b ≡ false) where
  stream_length : length (wrapping_stream b k rest) ≡ size b + 16 + length rest
  stream_length =
      length-append (encode b) (large_header k (2 ^ 32 - 1) (2 ^ 32 - size b) ++ rest) ∙ omega arith

  first_round : search_round (wrapping_stream b k rest) 0 ≡ go_on (size b)
  first_round =
      round_complete [] (wrapping_stream b k rest) []
        (large_header k (2 ^ 32 - 1) (2 ^ 32 - size b) ++ rest) b short (omega arith)
        (append-nil (wrapping_stream b k rest)) (omega (arith, stream_length))
        (omega (arith, stream_length))
      ∙ rw other (ap go_on (omega arith))

  back_round : search_round (wrapping_stream b k rest) (length (encode b)) ≡ go_on 0
  unfolding search_round round_at
  back_round =
      let value =
        read_box_size-large (encode b) rest k (2 ^ 32 - 1) (2 ^ 32 - size b) (omega arith)
          (omega arith) in
      let ty =
        box_type_at-large (encode b) rest k (2 ^ 32 - 1) (2 ^ 32 - size b) (omega arith)
          (omega arith) in
      let sum : usize_add (length (encode b)) ((2 ^ 32 - 1) * 2 ^ 32 + (2 ^ 32 - size b)) ≡ 0 =
        omega (arith, length-encode b) in
      let large : ltb ((2 ^ 32 - 1) * 2 ^ 32 + (2 ^ 32 - size b)) 16 ≡ false =
        le→ltb ((2 ^ 32 - 1) * 2 ^ 32 + (2 ^ 32 - size b)) 16 (omega arith) in
      let word = top_byte (2 ^ 32 - size b) (omega arith) (omega arith) in
      rw
        (
          le→ltb (length (wrapping_stream b k rest)) (length (encode b) + 8)
              (omega (arith, stream_length, length-encode b)),
          value,
          large,
          sum,
          le→ltb (length (wrapping_stream b k rest)) 0 (omega arith),
          ty,
          word,
        )
        (ap go_on sum)

  rounds :
      (fuel : ℕ)
      → (skip_to_moof fuel (wrapping_stream b k rest) 0 ≡ spins)
        × (skip_to_moof fuel (wrapping_stream b k rest) (length (encode b)) ≡ spins)
  rounds zero = (unfold skip_to_moof in refl, unfold skip_to_moof in refl)
  rounds (suc n) = (
    skip-go_on n (wrapping_stream b k rest) 0 (size b) first_round
        ∙ ap (skip_to_moof n (wrapping_stream b k rest)) (sym (length-encode b))
        ∙ (rounds n).1,
    skip-go_on n (wrapping_stream b k rest) (length (encode b)) 0 back_round ∙ (rounds n).0,
  )

  -- A buffer that begins with a box that is no `moof` and the header of one with the 64-bit size
  -- that wraps the sum back to the start: whatever the fuel, the call does not end.
  pub try_take_fragment-wraps :
      (fuel : ℕ) → try_take_fragment fuel (wrapping_stream b k rest) ≡ none
  unfolding try_take_fragment
  try_take_fragment-wraps fuel =
      rw
        (
          le→ltb (length (wrapping_stream b k rest)) 8 (omega (arith, stream_length)),
          (rounds fuel).0,
        )
        (unfold after_search in refl)

module _ (m k : Box) (high low : ℕ) (payload : Bytes) (fits : size m < 2 ^ 32)
    (fits_high : high < 2 ^ 32) (fits_low : low < b'm' * 2 ^ 24) (long : 16 ≤ high * 2 ^ 32 + low)
    (small : length (encode m ++ (large_header k high low ++ payload)) < 2 ^ 63) where
  first_size : read_box_size (encode m ++ (large_header k high low ++ payload)) 0 ≡ some (size m, 8)
  first_size =
      read_box_size-encode [] (encode m ++ (large_header k high low ++ payload)) []
        (large_header k high low ++ payload) m
        (omega
          (arith, length-append (encode m) (large_header k high low ++ payload), length-encode m))
        fits (append-nil (encode m ++ (large_header k high low ++ payload)))

  low_byte : eq_bytes (be_bytes4 low) mdat ≡ false
  low_byte = let other : (low / 2 ^ 24 % 256 == b'm') ≡ false = ground arith in rw other

  -- A `moof` with a box behind it whose size is written in 64 bits, the low word below 0x6d000000:
  -- the call takes the `moof` alone, also when the box behind it is an `mdat`.
  pub take_pair-large :
      take_pair (encode m ++ (large_header k high low ++ payload))
      ≡ some (encode m, large_header k high low ++ payload)
  unfolding take_pair
  take_pair-large =
      let n = size m in
      let bytes = encode m ++ (large_header k high low ++ payload) in
      let total : length bytes ≡ size m + 16 + length payload =
        length-append (encode m) (large_header k high low ++ payload)
        ∙ omega (arith, length-encode m) in
      rw (
        first_size,
        le→ltb (size m) 8 (omega arith),
        le→ltb (length bytes) (size m) (omega (arith, total)),
        le→ltb (length bytes) (size m + 8) (omega (arith, total)),
        ap (read_box_size bytes) (sym (length-encode m))
            ∙ read_box_size-large (encode m) payload k high low fits_high (omega arith),
        le→ltb (high * 2 ^ 32 + low) 16 (omega arith),
        ap (λ o. box_type_at bytes o 16) (sym (length-encode m))
            ∙ box_type_at-large (encode m) payload k high low fits_high (omega arith),
        low_byte,
        ap (λ k. take k bytes) (sym (length-encode m))
            ∙ take-length (encode m) (large_header k high low ++ payload),
        ap (λ k. drop k bytes) (sym (length-encode m))
            ∙ drop-length (encode m) (large_header k high low ++ payload),
      )
