-- ===== src/Manifest/Timeline/Template.antt =====
-- `SegmentTemplate@duration`, and the segments of a template (src/manifest/timeline/mod.rs).
use dashplay_rs.Prelude.{
  ℕ, zero, suc, add_u64, ◌+◌, ◌-◌, ◌^◌, ◌%◌, min, max, Option, none, some, List, [], ◌∷◌, ltb, ◌==◌,
  if◌then◌else◌, unwrap_or, filter_option, ok_or, Result, ok, err, ◌>>=◌, and_then,
}
use dashplay_rs.Float.{F64}
use dashplay_rs.Manifest.Types.{
  ManifestError, TimelineSegment, zero_timescale, missing_segment_duration,
  invalid_segment_template_end_number, missing_period_extent_for_static_template,
  missing_availability_start_for_dynamic_template,
}
use dashplay_rs.Manifest.Timeline.{S, SegmentTemplate, TimelineBuildContext, period_length_secs}
use dashplay_rs.Manifest.Timeline.Explicit.{segments_from_explicit_timeline}
use dashplay_rs.Manifest.Timeline.Window.{
  is_extent, buffer_depth_secs, filter_explicit_timeline_for_dynamic_window,
}

module _ (fl : F64) where
  open fl use {Value}

  abbrev pub Segments : Type 0
  Segments = List (TimelineSegment Value)

  -- What the segments of a template share.
  pub record Uniform : Type 0 where
    pub d : Value
    pub timescale : ℕ
    pub presentation_time_offset : ℕ
    pub start_number : ℕ

  unfoldable pub length_secs : Uniform → Value
  length_secs u = fl.div u.d (fl.of_u64 u.timescale)

  -- The segment `i` behind the first; its number is a sum of `u64`.
  unfoldable pub numbered : Uniform → ℕ → TimelineSegment Value
  numbered u i = record {
    number = (u.start_number + i) % 2 ^ 64;
    time = fl.to_u64 (
        fl.max (fl.add (fl.of_u64 u.presentation_time_offset) (fl.mul (fl.of_u64 i) u.d))
          (fl.literal 0 1));
    duration = fl.to_u64 (fl.max (fl.round u.d) (fl.literal 1 1));
    duration_s = length_secs u;
    presentation_time_s = fl.div (fl.mul (fl.of_u64 i) u.d) (fl.of_u64 u.timescale);
    sub_number = none;
    resync_start_chunk = none;
    media_url = none;
    media_range = none;
  }

  -- `n` segments from the `i`-th behind the first on.
  unfoldable pub run : Uniform → ℕ → ℕ → Segments
  run u i zero = []
  run u i (suc n) = numbered u i ∷ run u (i + 1) n

  -- The last segment of a Period may be shorter.
  unfoldable pub shortened : Value → ℕ → TimelineSegment Value → TimelineSegment Value
  shortened period_length_s timescale last =
      let remaining_s = fl.max (fl.sub period_length_s last.presentation_time_s) (fl.literal 0 1) in
      if fl.ltb (fl.add remaining_s (fl.literal 1 1_000_000_000)) last.duration_s
      then record last {
        duration_s = remaining_s;
        duration =
            fl.to_u64
              (fl.max (fl.round (fl.mul remaining_s (fl.of_u64 timescale))) (fl.literal 1 1));
      }
      else last

  unfoldable pub bound_last_static_duration_segment : Value → ℕ → Segments → Segments
  bound_last_static_duration_segment period_length_s timescale [] = []
  bound_last_static_duration_segment period_length_s timescale (s ∷ []) =
      shortened period_length_s timescale s ∷ []
  bound_last_static_duration_segment period_length_s timescale (s ∷ t ∷ ss) =
      s ∷ bound_last_static_duration_segment period_length_s timescale (t ∷ ss)

  unfoldable pub bounded : Option Value → ℕ → Segments → Segments
  bounded none timescale segments = segments
  bounded (some period_length_s) timescale segments =
      bound_last_static_duration_segment period_length_s timescale segments

  unfoldable pub static_duration_segment_count :
      ℕ → Value → Option ℕ → TimelineBuildContext Value → Result ManifestError ℕ
  static_duration_segment_count start_number duration_s (some end_number) ctx =
      if ltb end_number start_number
      then err invalid_segment_template_end_number
      else ok ((end_number - start_number + 1) % 2 ^ 64)
  static_duration_segment_count start_number duration_s none ctx = do
    length_s ←
        ok_or (filter_option (is_extent fl) (period_length_secs fl ctx))
          missing_period_extent_for_static_template
    ok (max (fl.to_u64 (fl.ceil (fl.div length_s duration_s))) 1)

  unfoldable pub static_segments :
      Uniform → Option ℕ → TimelineBuildContext Value → Result ManifestError Segments
  static_segments u end_number ctx = do
    count ← static_duration_segment_count u.start_number (length_secs u) end_number ctx
    ok (bounded (period_length_secs fl ctx) u.timescale (run u 0 count))

  -- Whole segments in a time, from the first number on.
  unfoldable pub number_at : Uniform → Value → ℕ
  number_at u t = (u.start_number + fl.to_u64 (fl.floor (fl.div t (length_secs u)))) % 2 ^ 64

  unfoldable pub live_position : TimelineBuildContext Value → ℕ → Value
  live_position ctx since =
      let elapsed =
        fl.max (fl.sub (fl.as_secs since) (fl.as_secs ctx.period_window.start)) (fl.literal 0 1) in
      elim (period_length_secs fl ctx) [ none ↦ elapsed | some length_s ↦ fl.min elapsed length_s ]

  -- The last number that begins before the Period ends.
  unfoldable pub capped_number : Uniform → Option Value → ℕ → ℕ
  capped_number u none n = n
  capped_number u (some length_s) n =
      if fl.ltb (fl.literal 0 1) length_s
      then min n
          (number_at u (fl.max (fl.sub length_s (fl.literal 1 1_000_000_000)) (fl.literal 0 1)))
      else n

  unfoldable pub within_end : Option ℕ → ℕ → ℕ
  within_end none n = n
  within_end (some end_number) n = min n end_number

  unfoldable pub last_number : Uniform → Option ℕ → TimelineBuildContext Value → Value → ℕ
  last_number u end_number ctx t_in_period =
      within_end end_number (capped_number u (period_length_secs fl ctx) (number_at u t_in_period))

  -- The first number, earlier where a position before the live edge must be covered.
  unfoldable pub covering_number : Uniform → Option Value → Value → ℕ → ℕ
  covering_number u none t_in_period start_n = start_n
  covering_number u (some must_cover) t_in_period start_n =
      if fl.ltb (fl.add must_cover (fl.literal 1 1_000_000)) t_in_period
      then min start_n (max (number_at u must_cover) u.start_number)
      else start_n

  unfoldable pub first_number : Uniform → TimelineBuildContext Value → Value → ℕ → ℕ
  first_number u ctx t_in_period end_n =
      let span =
        max (add_u64 (fl.to_u64 (fl.ceil (fl.div (buffer_depth_secs fl ctx) (length_secs u)))) 2)
          1 in
      covering_number u ctx.must_cover_presentation_s t_in_period
        (max (end_n - span) u.start_number)

  unfoldable pub dynamic_segments_at :
      Uniform → Option ℕ → TimelineBuildContext Value → Value → Segments
  dynamic_segments_at u end_number ctx t_in_period =
      let end_n = last_number u end_number ctx t_in_period in
      let start_n = first_number u ctx t_in_period end_n in
      if ltb end_n u.start_number
      then []
      else bounded (period_length_secs fl ctx) u.timescale
          (run u (start_n - u.start_number) (end_n + 1 - start_n))

  unfoldable pub dynamic_segments :
      Uniform → Option ℕ → TimelineBuildContext Value → Option ℕ → Result ManifestError Segments
  dynamic_segments u end_number ctx none = err missing_availability_start_for_dynamic_template
  dynamic_segments u end_number ctx (some since) =
      ok (dynamic_segments_at u end_number ctx (live_position ctx since))

  unfoldable pub uniform_of : SegmentTemplate Value → Value → Uniform
  uniform_of st d = record {
    d = d;
    timescale = unwrap_or st.timescale 1;
    presentation_time_offset = unwrap_or st.presentation_time_offset 0;
    start_number = unwrap_or st.start_number 1;
  }

  unfoldable pub duration_segments :
      Uniform → Option ℕ → TimelineBuildContext Value → Result ManifestError Segments
  duration_segments u end_number ctx =
      if u.timescale == 0
      then err zero_timescale
      else if ctx.is_dynamic
      then dynamic_segments u end_number ctx ctx.since_availability_start
      else static_segments u end_number ctx

  unfoldable pub segments_from_duration_template :
      SegmentTemplate Value → TimelineBuildContext Value → Option ℕ → Result ManifestError Segments
  segments_from_duration_template st ctx end_number = do
    d ← ok_or (filter_option (fl.ltb (fl.literal 0 1)) st.duration) missing_segment_duration
    duration_segments (uniform_of st d) end_number ctx

  with_timeline :
      ℕ
      → SegmentTemplate Value
      → TimelineBuildContext Value
      → Option ℕ
      → Option (List S)
      → Option (Result ManifestError Segments)
  with_timeline fuel st ctx end_number none =
      some (segments_from_duration_template st ctx end_number)
  with_timeline fuel st ctx end_number (some timeline) =
      and_then (segments_from_explicit_timeline fl fuel st timeline ctx) λ segments. some (
        if ctx.is_dynamic
        then filter_explicit_timeline_for_dynamic_window fl segments ctx
        else ok segments)

  -- `none` is that the fuel of a negative repeat ran out.
  unfoldable pub timeline_segments :
      ℕ
      → SegmentTemplate Value
      → TimelineBuildContext Value
      → Option ℕ
      → Option (Result ManifestError Segments)
  unfolding with_timeline
  timeline_segments fuel st ctx end_number =
      with_timeline fuel st ctx end_number st.segment_timeline
