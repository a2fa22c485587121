-- ===== src/Manifest/Timeline.antt =====
-- The segments of a Period (src/manifest/timeline/mod.rs, and its context in
-- src/manifest/types.rs). Of the elements of an MPD, which another library declares, the attributes
-- that are read.
pub mod Explicit
pub mod Repeats
pub mod Limits
pub mod Chains
pub mod Contiguous
pub mod Negative
pub mod Window
pub mod Template
pub mod Numbers
pub mod EndNumber
pub mod Sources
mod Examples
use dashplay_rs.Prelude.{
  ℕ, ℤ, ◌-◌, Bool, true, false, not, Option, none, some, List, ltb, ◌==◌, if◌then◌else◌,
  filter_option, map_option,
}
use dashplay_rs.Time.{saturating_add}
use dashplay_rs.Float.{F64}

-- `S`
pub record S : Type 0 where
  pub t : Option ℕ
  pub n : Option ℕ
  pub d : ℕ
  pub r : Option ℤ
  pub k : Option ℕ

-- `SegmentTemplate`
pub record SegmentTemplate (R : Type 0) : Type 0 where
  pub timescale : Option ℕ
  pub presentation_time_offset : Option ℕ
  pub start_number : Option ℕ
  pub duration : Option R
  pub segment_timeline : Option (List S)

pub record PeriodWindow : Type 0 where
  pub idx : ℕ
  pub start : ℕ
  pub end : Option ℕ

-- `TimelineBuildContext`, less the hints for resynchronisation, which nothing here reads.
pub record TimelineBuildContext (R : Type 0) : Type 0 where
  pub is_dynamic : Bool
  pub period_window : PeriodWindow
  pub period_duration : Option ℕ
  pub media_presentation_duration : Option ℕ
  pub time_shift_buffer_depth : Option ℕ
  pub since_availability_start : Option ℕ
  pub must_cover_presentation_s : Option R

abbrev is_filled : ℕ → Bool
is_filled d = not (d == 0)

-- The first of the lengths that is there.
abbrev first_of : Option ℕ → Option ℕ → Option ℕ → Option ℕ
first_of (some d) duration whole = some d
first_of none (some d) whole = some d
first_of none none whole = whole

-- The length of a Period, and its end on the timeline of the MPD.
unfoldable pub period_length : {R : Type 0} → TimelineBuildContext R → Option ℕ
period_length ctx =
    let start = ctx.period_window.start in
    first_of (filter_option is_filled (map_option (λ end. end - start) ctx.period_window.end))
      (filter_option is_filled ctx.period_duration)
      (map_option (λ d. d - start)
        (filter_option (λ d. ltb start d) ctx.media_presentation_duration))

unfoldable pub period_end : {R : Type 0} → TimelineBuildContext R → Option ℕ
period_end ctx =
    first_of ctx.period_window.end
      (map_option (λ d. saturating_add ctx.period_window.start d) ctx.period_duration)
      (filter_option is_filled ctx.media_presentation_duration)

module _ (fl : F64) where
  unfoldable pub period_length_secs : TimelineBuildContext fl.Value → Option fl.Value
  period_length_secs ctx = map_option fl.as_secs (period_length ctx)

  unfoldable pub period_end_secs : TimelineBuildContext fl.Value → Option fl.Value
  period_end_secs ctx = map_option fl.as_secs (period_end ctx)
