-- ===== src/Manifest/Examples.antt =====
-- A segment index at concrete inputs.
use dashplay_rs.Prelude.{
  false, ℕ, ◌≡◌, arith, refl, none, some, List, [], ◌∷◌, ◌++◌, Result, ok, err,
}
use dashplay_rs.Bytes.{Bytes}
use dashplay_rs.Float.Ticks.{ticks}
use dashplay_rs.Mp4.Wire.{Box, encode}
use dashplay_rs.Manifest.Types.{ManifestError, TimelineSegment, invalid_byte_range}
use dashplay_rs.Manifest.Ranges.{parse_byte_range}
use dashplay_rs.Manifest.Ranges
use dashplay_rs.Manifest.Sidx.Parser.{parse}
use dashplay_rs.Manifest.Sidx.Wire.{
  Entry, Index, encode_index, encode_fields, IndexFits, references_of, box_of,
}
use dashplay_rs.Manifest.Sidx.RoundTrip.{parse-encode_index}
use dashplay_rs.Manifest.Sidx.Locate.{scan_from}
use dashplay_rs.Manifest.Sidx.Scanning.{IsSkipped, scan_from-finds}
use dashplay_rs.Manifest.Sidx.Layout.{AllMedia, Timeline}
use dashplay_rs.Manifest.Sidx.Load.{IndexSource, parse_sidx_index}
use dashplay_rs.Manifest.Sidx.Loading.{parse_sidx_index-Timeline}

abbrev pub entry : ℕ → ℕ → Entry
entry bytes duration = (
  record { reference_type = 0; referenced_size = bytes; subsegment_duration = duration },
  0x90000000,
)

abbrev pub index : Index
index = record {
  version = 1;
  flags = 0;
  reference_id = 1;
  timescale = 90_000;
  earliest_presentation_time = 180_000;
  first_offset = 16;
  reserved = 0;
  entries = entry 5_000 90_000 ∷ entry 7_000 45_000 ∷ [];
}

pub index-IndexFits : IndexFits index
index-IndexFits = record {
  size = omega arith;
  reference_id = omega arith;
  timescale = omega arith;
  earliest = omega arith;
  first_offset = omega arith;
  count = omega arith;
  entries =
      ((omega arith, omega arith, omega arith), ((omega arith, omega arith, omega arith), tt));
}

pub index-AllMedia : AllMedia (references_of index.entries)
index-AllMedia = (refl, omega arith, (refl, omega arith, tt))

abbrev pub free_box : Box
free_box = record { k0 = b'f'; k1 = b'r'; k2 = b'e'; k3 = b'e'; payload = 0 ∷ 0 ∷ 0 ∷ 0 ∷ [] }

pub free_box-IsSkipped : IsSkipped free_box
free_box-IsSkipped = record { other = refl; graphic = refl; small = omega arith }

abbrev pub source : Bytes → IndexSource
source range = record {
  index_range = some range;
  index_range_exact = none;
  timescale = none;
  presentation_time_offset = none;
  start_number = none;
  representation_index = none;
}

-- Ranges.
abbrev pub two_to_five : Bytes
two_to_five = b'2' ∷ b'-' ∷ b'5' ∷ []

pub two_to_five_is : parse_byte_range two_to_five ≡ ok (record { start = 2; end = 5 })
unfolding parse_byte_range Ranges.split_at Ranges.parse_u64 Ranges.digits_from
two_to_five_is = refl

backwards : parse_byte_range (b'5' ∷ b'-' ∷ b'2' ∷ []) ≡ err invalid_byte_range
unfolding parse_byte_range Ranges.split_at Ranges.parse_u64 Ranges.digits_from
backwards = refl

with_sign : parse_byte_range (b'+' ∷ b'2' ∷ b'-' ∷ b'5' ∷ []) ≡ ok (record { start = 2; end = 5 })
unfolding parse_byte_range Ranges.split_at Ranges.parse_u64 Ranges.digits_from
with_sign = refl

unbounded : parse_byte_range (b'2' ∷ b'-' ∷ []) ≡ err invalid_byte_range
unfolding parse_byte_range Ranges.split_at Ranges.parse_u64 Ranges.digits_from
unbounded = refl

parse-encode_index_example : parse (encode_index index ++ (b'm' ∷ b'o' ∷ [])) ≡ ok (box_of index)
parse-encode_index_example = parse-encode_index index (b'm' ∷ b'o' ∷ []) index-IndexFits

scan_from-finds_example :
    scan_from 3 (encode free_box ++ (encode_index index ++ (b'm' ∷ []))) 100 0 ≡ some (ok 12)
scan_from-finds_example =
    scan_from-finds (free_box ∷ []) 3 100 [] (encode_fields index) (b'm' ∷ []) (omega arith)
      (free_box-IsSkipped, tt) (omega arith)

parse_sidx_index-Timeline_example :
    (r : Result ManifestError (List (TimelineSegment ℕ))) × (parse_sidx_index ticks 3
        (source two_to_five)
        (encode free_box ++ (encode_index index ++ (b'm' ∷ [])))
      ≡ some r)
    × Timeline ticks 1 94 180_000 (references_of index.entries) r
parse_sidx_index-Timeline_example =
    parse_sidx_index-Timeline ticks (source two_to_five) two_to_five (record { start = 2; end = 5 })
      false (free_box ∷ []) index (b'm' ∷ []) 3 refl two_to_five_is refl (omega arith)
      (free_box-IsSkipped, tt) index-IndexFits index-AllMedia (omega arith) (omega arith)
      (omega arith) (omega arith) (omega arith)
