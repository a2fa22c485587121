-- ===== src/Schedule/Examples.antt =====
-- The fetch of an index at concrete inputs.
use dashplay_rs.Prelude.{ℕ, ◌≡◌, arith, refl, some, [], ◌∷◌, ◌++◌, ok, err}
use dashplay_rs.Bytes.{Bytes}
use dashplay_rs.Float.Ticks.{ticks}
use dashplay_rs.Mp4.Wire.{encode}
use dashplay_rs.Manifest.Types.{ByteRange, sidx_parse}
use dashplay_rs.Manifest.Ranges
use dashplay_rs.Manifest.Ranges.{parse_byte_range}
use dashplay_rs.Manifest.Sidx.Wire.{encode_index}
use dashplay_rs.Manifest.Examples.{
  index, index-IndexFits, index-AllMedia, free_box, free_box-IsSkipped, source, two_to_five,
  two_to_five_is,
}
use dashplay_rs.Schedule.IndexFetch.{manifest, fetch_and_parse_segment_base_index}
use dashplay_rs.Schedule.IndexFetch.Rounds.{serve}
use dashplay_rs.Schedule.IndexFetch.Completing.{
  Completed, fetch_and_parse_segment_base_index-Completed,
}
use dashplay_rs.Schedule.IndexFetch.Skipping.{fetch_and_parse_segment_base_index-stops}

-- Two bytes stand before the index, and the range declares four of its bytes.
abbrev before : Bytes
before = 0 ∷ 0 ∷ []

abbrev short_range : ByteRange
short_range = record { start = 2; end = 5 }

fetch_and_parse_segment_base_index-Completed_example :
    Completed ticks
      (source two_to_five)
      two_to_five
      short_range
      index
      (b'm' ∷ [])
      refl
      two_to_five_is
      refl
      refl
      index-IndexFits
      (omega arith)
      (omega arith)
      0
      index-AllMedia
      (omega arith)
      (omega arith)
      (omega arith)
      (omega arith)
      before
      refl
      ℕ
      (fetch_and_parse_segment_base_index ticks
        (serve ticks
          (source two_to_five)
          short_range
          ℕ
          before
          (encode_index index ++ (b'm' ∷ []))
          refl)
        3
        (source two_to_five)
        short_range)
fetch_and_parse_segment_base_index-Completed_example =
    fetch_and_parse_segment_base_index-Completed ticks (source two_to_five) two_to_five short_range
      index (b'm' ∷ []) refl two_to_five_is refl refl index-IndexFits (omega arith) (omega arith) 0
      index-AllMedia (omega arith) (omega arith) (omega arith) (omega arith) before refl ℕ
      (omega arith)

abbrev two_to_twenty_one : Bytes
two_to_twenty_one = b'2' ∷ b'-' ∷ b'2' ∷ b'1' ∷ []

-- A box is there, and the next one is cut off.
abbrev into_the_box : ByteRange
into_the_box = record { start = 2; end = 21 }

two_to_twenty_one_is : parse_byte_range two_to_twenty_one ≡ ok into_the_box
unfolding parse_byte_range Ranges.split_at Ranges.parse_u64 Ranges.digits_from
two_to_twenty_one_is = refl

fetch_and_parse_segment_base_index-stops_example :
    fetch_and_parse_segment_base_index ticks
      (serve ticks
        (source two_to_twenty_one)
        into_the_box
        ℕ
        before
        (encode free_box ++ (encode free_box ++ encode_index index))
        refl)
      2
      (source two_to_twenty_one)
      into_the_box
    ≡ some (err (manifest sidx_parse))
fetch_and_parse_segment_base_index-stops_example =
    (fetch_and_parse_segment_base_index-stops ticks (source two_to_twenty_one) two_to_twenty_one
      into_the_box (free_box ∷ []) free_box (encode_index index) refl two_to_twenty_one_is refl refl
      (free_box-IsSkipped, tt) free_box-IsSkipped (omega arith) ℕ before refl 0 (omega arith)
      (omega arith)).1
