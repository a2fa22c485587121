-- ===== src/Manifest/Sidx/Load.antt =====
-- From the bytes of an index to the segments that it lists (src/manifest/sidx/mod.rs). Of a
-- `SegmentBase` or a `SegmentTemplate`, which another library declares, the attributes that are read.
use dashplay_rs.Prelude.{
  add_u64, ℕ, ◌+◌, ◌-◌, Bool, false, Option, none, some, List, ltb, ◌==◌, if◌then◌else◌, length,
  drop, Result, ok, err, ◌>>=◌, unwrap_or,
}
use dashplay_rs.Bytes.{Bytes, slice}
use dashplay_rs.Float.{F64}
use dashplay_rs.Manifest.Types.{
  ManifestError, ByteRange, TimelineSegment, invalid_byte_range, missing_segment_base_index_range,
  missing_segment_template_index_range,
}
use dashplay_rs.Manifest.Ranges.{parse_byte_range}
use dashplay_rs.Manifest.Sidx.Parser.{SidxBox, parse}
use dashplay_rs.Manifest.Sidx.Locate.{
  reject_unsupported_index_container, find_sidx_offset, ensure_index_segment_complete,
}
use dashplay_rs.Manifest.Sidx.Expand.{timeline_segments_from_index_blob}

-- `representation_index` is the range of a `RepresentationIndex`, where there is one.
pub record IndexSource : Type 0 where
  pub index_range : Option Bytes
  pub index_range_exact : Option Bool
  pub timescale : Option ℕ
  pub presentation_time_offset : Option ℕ
  pub start_number : Option ℕ
  pub representation_index : Option (Option Bytes)

-- The position of the `sidx` in the bytes, once all of the index is there.
unfoldable pub located :
    Bytes → ℕ → Option (Result ManifestError ℕ) → Option (Result ManifestError ℕ)
located bytes range_start none = none
located bytes range_start (some (err e)) = some (err e)
located bytes range_start (some (ok off)) =
    some do _ ← ensure_index_segment_complete bytes off range_start; ok off

unfoldable pub if_supported :
    Result ManifestError (Unit {0})
    → Option (Result ManifestError ℕ)
    → Option (Result ManifestError ℕ)
if_supported (err e) found = some (err e)
if_supported (ok _) found = found

unfoldable pub locate : ℕ → Bytes → Bool → ℕ → Option (Result ManifestError ℕ)
locate fuel bytes exact range_start =
    if_supported (reject_unsupported_index_container bytes)
      (located bytes range_start (find_sidx_offset fuel bytes exact range_start))

-- `parse_sidx_from_index_bytes`: the box, and its offset in the bytes.
unfoldable pub sliced : Bytes → ByteRange → Result ManifestError (SidxBox × ℕ)
sliced bytes br =
    let expected_len = (br.end - br.start) + 1 in
    if length bytes == expected_len
    then (parse bytes >>= λ b. ok (b, 0))
    else if ltb br.end (length bytes)
    then (parse (slice bytes br.start expected_len) >>= λ b. ok (b, br.start))
    else err invalid_byte_range

unfoldable pub parse_sidx_from_index_bytes : Bytes → Bytes → Result ManifestError (SidxBox × ℕ)
parse_sidx_from_index_bytes bytes range = do br ← parse_byte_range range; sliced bytes br

unfoldable pub parse_sidx_from_representation_index_bytes :
    Bytes → Option Bytes → Result ManifestError (SidxBox × ℕ)
parse_sidx_from_representation_index_bytes bytes (some range) =
    parse_sidx_from_index_bytes bytes range
parse_sidx_from_representation_index_bytes bytes none = do b ← parse bytes; ok (b, 0)

module _ (fl : F64) where
  open fl use {Value}

  abbrev pub Segments : Type 0
  Segments = Result ManifestError (List (TimelineSegment Value))

  -- The segments of the box at an offset; `origin` is the media origin, given the box.
  unfoldable pub segments_at : IndexSource → Bytes → ℕ → ℕ → ℕ → SidxBox → Segments
  segments_at src bytes off start_number origin b =
      timeline_segments_from_index_blob fl
        (record {
          index_bytes = bytes;
          timescale = unwrap_or src.timescale b.timescale;
          presentation_time_offset = unwrap_or src.presentation_time_offset 0;
          media_origin = origin;
        })
        off start_number

  unfoldable pub base_segments : IndexSource → Bytes → Bool → ByteRange → ℕ → Segments
  base_segments src bytes exact br off = do
    b ← parse (drop off bytes)
    segments_at src bytes off 1
        (if exact then add_u64 br.end 1 else add_u64 (add_u64 br.start off) b.box_size) b

  unfoldable pub template_segments : IndexSource → Bytes → Bool → ByteRange → ℕ → Segments
  template_segments src bytes exact br off = do
    b ← parse (drop off bytes)
    segments_at src bytes off (unwrap_or src.start_number 1) 0 b

  unfoldable pub with_offset : (ℕ → Segments) → Option (Result ManifestError ℕ) → Option Segments
  with_offset k none = none
  with_offset k (some r) = some (r >>= k)

  unfoldable pub from_range :
      ℕ
      → Bytes
      → Bool
      → (Bool → ByteRange → ℕ → Segments)
      → Result ManifestError ByteRange
      → Option Segments
  from_range fuel bytes exact k (err e) = some (err e)
  from_range fuel bytes exact k (ok br) =
      with_offset (k exact br) (locate fuel bytes exact br.start)

  -- `missing` is the error for a range that is not there.
  unfoldable pub from_attribute :
      ManifestError
      → ℕ
      → IndexSource
      → Bytes
      → (Bool → ByteRange → ℕ → Segments)
      → Option Bytes
      → Option Segments
  from_attribute missing fuel src bytes k none = some (err missing)
  from_attribute missing fuel src bytes k (some range) =
      from_range fuel bytes (unwrap_or src.index_range_exact false) k (parse_byte_range range)

  -- `none` is that the scan's fuel ran out.
  unfoldable pub parse_sidx_index : ℕ → IndexSource → Bytes → Option Segments
  parse_sidx_index fuel src bytes =
      from_attribute missing_segment_base_index_range fuel src bytes (base_segments src bytes)
        src.index_range

  unfoldable pub from_representation_index : IndexSource → Bytes → ℕ → Option Bytes → Segments
  from_representation_index src bytes start_number range = do
    (b, off) ← parse_sidx_from_representation_index_bytes bytes range
    segments_at src bytes off start_number 0 b

  -- Through a `RepresentationIndex`, where there is one.
  unfoldable pub or_representation :
      (Option Bytes → Segments) → Option Segments → Option (Option Bytes) → Option Segments
  or_representation separate same none = same
  or_representation separate same (some range) = some (separate range)

  unfoldable pub parse_sidx_index_for_segment_base : ℕ → IndexSource → Bytes → Option Segments
  parse_sidx_index_for_segment_base fuel src bytes =
      or_representation (from_representation_index src bytes 1) (parse_sidx_index fuel src bytes)
        src.representation_index

  unfoldable pub parse_sidx_index_from_template : ℕ → IndexSource → Bytes → Option Segments
  parse_sidx_index_from_template fuel src bytes =
      or_representation (from_representation_index src bytes (unwrap_or src.start_number 1))
        (from_attribute missing_segment_template_index_range fuel src bytes
          (template_segments src bytes) src.index_range)
        src.representation_index
