-- ===== src/Manifest/Timeline/Sources.antt =====
-- The segments of a `SegmentList` or a `SegmentBase` (src/manifest/timeline/mod.rs).
use dashplay_rs.Prelude.{
  ℕ, add_u64, mul_u64, ◌+◌, Bool, true, false, not, ◌&&◌, ◌||◌, Option, none, some, List, [], ◌∷◌,
  length, ltb, ◌==◌, if◌then◌else◌, unwrap_or, filter_option, ok_or, is_some, Result, ok, err,
  ◌>>=◌, and_then,
}
use dashplay_rs.Bytes.{Bytes}
use dashplay_rs.Float.{F64}
use dashplay_rs.Manifest.Types.{
  ManifestError, ByteRange, TimelineSegment, zero_timescale, missing_segment_duration,
  empty_segment_list, segment_list_url_timeline_mismatch, segment_base_index_not_loaded,
  segment_template_index_not_loaded, missing_period_extent_for_static_template,
}
use dashplay_rs.Manifest.Ranges.{parse_byte_range}
use dashplay_rs.Manifest.Timeline.{S, SegmentTemplate, TimelineBuildContext, period_length_secs}
use dashplay_rs.Manifest.Timeline.Explicit.{segments_from_explicit_timeline}
use dashplay_rs.Manifest.Timeline.Window.{is_extent, filter_explicit_timeline_for_dynamic_window}
use dashplay_rs.Manifest.Timeline.Template.{Segments, timeline_segments}

-- `SegmentURL`
pub record SegmentUrl : Type 0 where
  pub media : Option Bytes
  pub media_range : Option Bytes

-- `SegmentList`
pub record SegmentList : Type 0 where
  pub timescale : Option ℕ
  pub duration : Option ℕ
  pub segment_timeline : Option (List S)
  pub segment_urls : List SegmentUrl

-- `SegmentBase`
pub record SegmentBase : Type 0 where
  pub timescale : Option ℕ
  pub presentation_duration : Option ℕ
  pub index_range : Option Bytes
  pub has_representation_index : Bool

unfoldable pub segment_base_uses_sidx_index : SegmentBase → Bool
segment_base_uses_sidx_index sb = is_some sb.index_range || sb.has_representation_index

unfoldable pub transposed : Option Bytes → Result ManifestError (Option ByteRange)
transposed none = ok none
transposed (some range) = do br ← parse_byte_range range; ok (some br)

unfoldable pub segment_url_media_range : SegmentUrl → Result ManifestError (Option ByteRange)
unfolding transposed
segment_url_media_range su = transposed su.media_range

module _ (fl : F64) where
  open fl use {Value}

  -- The `zip` of segments and URLs; it ends with the shorter.
  unfoldable pub with_urls : Segments fl → List SegmentUrl → Result ManifestError (Segments fl)
  with_urls [] sus = ok []
  with_urls (s ∷ ss) [] = ok (s ∷ ss)
  with_urls (s ∷ ss) (su ∷ sus) = do
    range ← segment_url_media_range su
    more ← with_urls ss sus
    ok (record s { media_url = su.media; media_range = range } ∷ more)

  matched : List SegmentUrl → Segments fl → Result ManifestError (Segments fl)
  matched sus segments =
      if ltb 0 (length sus) && not (length sus == length segments)
      then err segment_list_url_timeline_mismatch
      else with_urls segments sus

  -- The template that a list with a timeline stands for.
  unfoldable pub pseudo_template : SegmentList → List S → SegmentTemplate Value
  pseudo_template sl timeline = record {
    timescale = sl.timescale;
    presentation_time_offset = some 0;
    start_number = some 1;
    duration = none;
    segment_timeline = some timeline;
  }

  unfoldable pub segments_from_list_timeline :
      ℕ
      → SegmentList
      → List S
      → TimelineBuildContext Value
      → Option (Result ManifestError (Segments fl))
  unfolding matched
  segments_from_list_timeline fuel sl timeline ctx =
      and_then (segments_from_explicit_timeline fl fuel (pseudo_template sl timeline) timeline ctx)
        λ segments. some (matched sl.segment_urls segments)

  unfoldable pub listed : ℕ → ℕ → ℕ → SegmentUrl → Option ByteRange → TimelineSegment Value
  listed ticks timescale i su range =
      let duration_s = fl.div (fl.of_u64 ticks) (fl.of_u64 timescale) in
      record {
        number = add_u64 i 1;
        time = mul_u64 i ticks;
        duration = ticks;
        duration_s = duration_s;
        presentation_time_s = fl.mul (fl.of_u64 i) duration_s;
        sub_number = none;
        resync_start_chunk = none;
        media_url = su.media;
        media_range = range;
      }

  unfoldable pub listed_from : ℕ → ℕ → ℕ → List SegmentUrl → Result ManifestError (Segments fl)
  listed_from ticks timescale i [] = ok []
  listed_from ticks timescale i (su ∷ sus) = do
    range ← segment_url_media_range su
    more ← listed_from ticks timescale (i + 1) sus
    ok (listed ticks timescale i su range ∷ more)

  unfoldable pub segments_from_list_urls : SegmentList → Result ManifestError (Segments fl)
  segments_from_list_urls sl = do
    ticks ← ok_or (filter_option (ltb 0) sl.duration) missing_segment_duration
    if unwrap_or sl.timescale 1 == 0
        then err zero_timescale
        else listed_from ticks (unwrap_or sl.timescale 1) 0 sl.segment_urls

  by_timeline :
      ℕ
      → SegmentList
      → TimelineBuildContext Value
      → Option (List S)
      → Option (Result ManifestError (Segments fl))
  by_timeline fuel sl ctx none = some (
      if ltb 0 (length sl.segment_urls) then segments_from_list_urls sl else err empty_segment_list)
  by_timeline fuel sl ctx (some timeline) =
      and_then (segments_from_list_timeline fuel sl timeline ctx) λ segments. some (
        if ctx.is_dynamic
        then filter_explicit_timeline_for_dynamic_window fl segments ctx
        else ok segments)

  unfoldable pub timeline_segments_from_list :
      ℕ → SegmentList → TimelineBuildContext Value → Option (Result ManifestError (Segments fl))
  unfolding by_timeline
  timeline_segments_from_list fuel sl ctx = by_timeline fuel sl ctx sl.segment_timeline

  -- The one segment of a whole file.
  whole_file : ℕ → Value → Segments fl
  whole_file duration_ticks duration_s =
      record {
        number = 1;
        time = 0;
        duration = duration_ticks;
        duration_s = duration_s;
        presentation_time_s = fl.literal 0 1;
        sub_number = none;
        resync_start_chunk = none;
        media_url = none;
        media_range = none;
      }
      ∷ []

  -- By `@presentationDuration`, else by the length of the Period.
  by_duration : ℕ → TimelineBuildContext Value → Option ℕ → Result ManifestError (Segments fl)
  unfolding whole_file
  by_duration timescale ctx (some d) =
      ok (whole_file d (fl.div (fl.of_u64 d) (fl.of_u64 timescale)))
  by_duration timescale ctx none = do
    duration_s ←
        ok_or (filter_option (is_extent fl) (period_length_secs fl ctx))
          missing_period_extent_for_static_template
    ok (
        whole_file
          (fl.to_u64 (fl.max (fl.round (fl.mul duration_s (fl.of_u64 timescale))) (fl.literal 1 1)))
          duration_s)

  unfoldable pub timeline_segments_from_segment_base :
      SegmentBase → TimelineBuildContext Value → Result ManifestError (Segments fl)
  unfolding by_duration
  timeline_segments_from_segment_base sb ctx =
      let timescale = unwrap_or sb.timescale 1 in
      if segment_base_uses_sidx_index sb
      then err segment_base_index_not_loaded
      else if timescale == 0
      then err zero_timescale
      else by_duration timescale ctx (filter_option (ltb 0) sb.presentation_duration)

  -- `SegmentAddressing`, and with a template whether it has one index for all segments.
  pub data SegmentAddressing : Type 0 where
    template : SegmentTemplate Value → Bool → SegmentAddressing
    list : SegmentList → SegmentAddressing
    base : SegmentBase → SegmentAddressing

  unfoldable pub timeline_segments_for_addressing :
      ℕ
      → SegmentAddressing
      → TimelineBuildContext Value
      → Option ℕ
      → Option (Result ManifestError (Segments fl))
  timeline_segments_for_addressing fuel (template st uses_index) ctx end_number = elim uses_index [
    | true ↦ some (err segment_template_index_not_loaded)
    | false ↦ timeline_segments fl fuel st ctx end_number
  ]
  timeline_segments_for_addressing fuel (list sl) ctx end_number =
      timeline_segments_from_list fuel sl ctx
  timeline_segments_for_addressing fuel (base sb) ctx end_number =
      some (timeline_segments_from_segment_base sb ctx)
