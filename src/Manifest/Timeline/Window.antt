-- ===== src/Manifest/Timeline/Window.antt =====
-- The time-shift window of a dynamic MPD (`filter_explicit_timeline_for_dynamic_window`).
use dashplay_rs.Prelude.{
  ℕ, Bool, true, false, ◌&&◌, ◌||◌, Option, none, some, List, [], ◌∷◌, if◌then◌else◌, unwrap_or,
  filter_option, map_option, Result, ok, err,
}
use dashplay_rs.Float.{F64}
use dashplay_rs.Manifest.Types.{
  ManifestError, TimelineSegment, missing_availability_start_for_dynamic_template,
}
use dashplay_rs.Manifest.Timeline.{TimelineBuildContext, period_end_secs}

module _ (fl : F64) where
  open fl use {Value}

  -- `x.is_finite() && x > 0.0`
  abbrev pub is_extent : Value → Bool
  is_extent x = fl.is_finite x && fl.ltb (fl.literal 0 1) x

  -- The time-shift buffer, 120 seconds by default.
  unfoldable pub buffer_depth_secs : TimelineBuildContext Value → Value
  buffer_depth_secs ctx =
      unwrap_or (filter_option is_extent (map_option fl.as_secs ctx.time_shift_buffer_depth))
        (fl.literal 120 1)

  -- The window begins earlier where a position in the buffer must be covered.
  covering : Value → Value → Value → Option Value → Value
  covering period_start_s now_s start none = start
  covering period_start_s now_s start (some must_cover) =
      let abs_cover = fl.add period_start_s must_cover in
      let tolerance = fl.literal 1 1_000_000 in
      if fl.leb start (fl.add abs_cover tolerance) && fl.leb abs_cover (fl.add now_s tolerance)
      then fl.min start abs_cover
      else start

  unfoldable pub window_start_secs : TimelineBuildContext Value → Value → Value
  unfolding covering
  window_start_secs ctx now_s =
      let period_start_s = fl.as_secs ctx.period_window.start in
      let dvr_start = fl.max (fl.sub now_s (buffer_depth_secs ctx)) period_start_s in
      covering period_start_s now_s dvr_start ctx.must_cover_presentation_s

  before_end : Option Value → Value → Bool
  before_end none abs_s = true
  before_end (some end) abs_s = fl.ltb (fl.add abs_s (fl.literal 1 1_000_000_000)) end

  unfoldable pub is_in_window : TimelineBuildContext Value → Value → TimelineSegment Value → Bool
  unfolding before_end
  is_in_window ctx now_s s =
      let abs_s = fl.add (fl.as_secs ctx.period_window.start) s.presentation_time_s in
      let tolerance = fl.literal 1 1_000_000 in
      if fl.ltb abs_s (fl.sub (window_start_secs ctx now_s) tolerance)
        || fl.ltb (fl.add now_s tolerance) abs_s
      then false
      else before_end (period_end_secs fl ctx) abs_s

  unfoldable pub filter :
      (TimelineSegment Value → Bool) → List (TimelineSegment Value) → List (TimelineSegment Value)
  filter p [] = []
  filter p (s ∷ ss) = let rest = filter p ss in if p s then s ∷ rest else rest

  at_now :
      List (TimelineSegment Value)
      → TimelineBuildContext Value
      → Option ℕ
      → Result ManifestError (List (TimelineSegment Value))
  at_now segments ctx none = err missing_availability_start_for_dynamic_template
  at_now segments ctx (some since) = ok (filter (is_in_window ctx (fl.as_secs since)) segments)

  unfoldable pub filter_explicit_timeline_for_dynamic_window :
      List (TimelineSegment Value)
      → TimelineBuildContext Value
      → Result ManifestError (List (TimelineSegment Value))
  unfolding at_now
  filter_explicit_timeline_for_dynamic_window segments ctx =
      at_now segments ctx ctx.since_availability_start
