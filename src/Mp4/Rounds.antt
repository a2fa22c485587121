-- ===== src/Mp4/Rounds.antt =====
-- One round of the accumulator's search, and the pair that it takes, on the beginning of a stream
-- of boxes.
use dashplay_rs.Prelude.{
  ◌+◌, ◌^◌, ◌<◌, ◌≤◌, ◌≡◌, ◌++◌, arith, length, if◌then◌else◌, length-append, lt→ltb, le→ltb,
}
use dashplay_rs.Bytes.{Bytes, usize_add}
use dashplay_rs.Mp4.Chunks.{search_round, round_at, give_up, leave, go_on}
use dashplay_rs.Mp4.Wire.{Box, size, encode, is_moof}
use dashplay_rs.Mp4.Prefix.{read_box_size-encode, box_type_at-encode}

pub length-encode : (b : Box) → length (encode b) ≡ size b
length-encode b = omega arith

-- With less than a header left the loop ends.
pub round_short :
    (pre rest : Bytes) → length rest < 8 → search_round (pre ++ rest) (length pre) ≡ leave
unfolding search_round
round_short pre rest h =
    rw (lt→ltb (length (pre ++ rest)) (length pre + 8) (omega (arith, length-append pre rest)))

module _ (pre rest future tail : Bytes) (b : Box) (small : length (pre ++ rest) < 2 ^ 63)
    (fits : size b < 2 ^ 32) (stream : rest ++ future ≡ encode b ++ tail) where
  pub round_incomplete :
      8 ≤ length rest → length rest < size b → search_round (pre ++ rest) (length pre) ≡ give_up
  unfolding search_round round_at
  round_incomplete h k =
      rw
        (
          le→ltb (length (pre ++ rest)) (length pre + 8) (omega (arith, length-append pre rest)),
          read_box_size-encode pre rest future tail b h fits stream,
        )
        (ground (arith, length-append pre rest))

  pub round_complete :
      8 ≤ length rest
      → size b ≤ length rest
      → search_round (pre ++ rest) (length pre)
        ≡ (if is_moof b then leave else go_on (length pre + size b))
  unfolding search_round round_at
  round_complete h k =
      let total = length-append pre rest in
      let sum : usize_add (length pre) (size b) ≡ length pre + size b = omega arith in
      rw (
        le→ltb (length (pre ++ rest)) (length pre + 8) (omega arith),
        read_box_size-encode pre rest future tail b h fits stream,
        le→ltb (size b) 8 (omega arith),
        box_type_at-encode pre rest future tail b h fits stream,
        sum,
        le→ltb (length (pre ++ rest)) (length pre + size b) (omega arith),
      )
