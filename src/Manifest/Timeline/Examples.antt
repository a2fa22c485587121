-- ===== src/Manifest/Timeline/Examples.antt =====
-- Timelines at concrete inputs.
use dashplay_rs.Prelude.{
  ℕ, pos, negsuc, arith, ◌≡◌, ◌⊎◌, refl, false, none, some, Option, List, [], ◌∷◌, map, Result, ok,
  err,
}
use dashplay_rs.Float.Ticks.{ticks}
use dashplay_rs.Manifest.Types.{
  ManifestError, TimelineSegment, zero_timeline_segment_duration, timeline_d_not_divisible_by_k,
}
use dashplay_rs.Manifest.Timeline
use dashplay_rs.Manifest.Timeline.{S, SegmentTemplate, TimelineBuildContext}
use dashplay_rs.Manifest.Timeline.Explicit
use dashplay_rs.Manifest.Timeline.Explicit.{
  max_expansion, Grid, State, expand_entry, segments_from_explicit_timeline,
}
use dashplay_rs.Manifest.Timeline.Repeats.{unroll, segments_from_explicit_timeline-unroll}
use dashplay_rs.Manifest.Timeline.Limits.{EndsWithin, segments_from_explicit_timeline-EndsWithin}
use dashplay_rs.Manifest.Timeline.Contiguous.{
  PlaysThrough, grid_of, segments_from_explicit_timeline-PlaysThrough,
}
use dashplay_rs.Manifest.Timeline.Negative.{expand_entry-next_t}
use dashplay_rs.Manifest.Timeline.Template
use dashplay_rs.Manifest.Timeline.Template.{segments_from_duration_template, uniform_of}
use dashplay_rs.Manifest.Timeline.Numbers.{
  Numbered, of_run, segments_from_duration_template-Numbered,
}
use dashplay_rs.Manifest.Timeline.EndNumber.{Exactly, segments_from_duration_template-Exactly}

abbrev lasting : ℕ → S
lasting d = record { t = none; n = none; d = d; r = none; k = none }

-- Three sequences of two subsegments each.
abbrev parted : S
parted = record { t = some 100; n = some 7; d = 10; r = some (pos 2); k = some 2 }

-- Until the next `@t`.
abbrev until_next : S
until_next = record (lasting 10) { r = some (negsuc 0) }

abbrev timeline : List S
timeline = parted ∷ until_next ∷ record (lasting 4) { t = some 165 } ∷ []

abbrev st : SegmentTemplate ℕ
st = record {
  timescale = some 10;
  presentation_time_offset = some 100;
  start_number = none;
  duration = some 40_000_000_000;
  segment_timeline = some timeline;
}

abbrev ctx : TimelineBuildContext ℕ
ctx = record {
  is_dynamic = false;
  period_window = record { idx = 0; start = 0; end = some 10_000_000_000 };
  period_duration = none;
  media_presentation_duration = none;
  time_shift_buffer_depth = none;
  since_availability_start = none;
  must_cover_presentation_s = none;
}

abbrev starts : Option (Result ManifestError (List (TimelineSegment ℕ))) → List (ℕ × ℕ)
starts (some (ok segments)) = map (λ s. (s.number, s.time)) segments
starts _ = []

the_segments :
    starts (segments_from_explicit_timeline ticks 9 st timeline ctx)
    ≡ (7, 100)
      ∷ (7, 100)
      ∷ (8, 110)
      ∷ (8, 110)
      ∷ (9, 120)
      ∷ (9, 120)
      ∷ (10, 130)
      ∷ (11, 140)
      ∷ (12, 150)
      ∷ (13, 160)
      ∷ (14, 165)
      ∷ []
unfolding segments_from_explicit_timeline Explicit.expand_entries expand_entry Explicit.checked
    Explicit.repeated Explicit.negative_r_repeat_end Explicit.next_t Explicit.repeat_sequence
    Explicit.emit_once Explicit.emitted Explicit.emit_segment_sequence Explicit.subsegments
    Explicit.subsegment Explicit.seconds Explicit.repeat_until Explicit.turn Explicit.is_reached
    Explicit.entered Explicit.left
the_segments = refl

no_duration :
    segments_from_explicit_timeline ticks 9 st (lasting 0 ∷ []) ctx
    ≡ some (err zero_timeline_segment_duration)
unfolding segments_from_explicit_timeline Explicit.expand_entries expand_entry Explicit.checked
no_duration = refl

uneven :
    segments_from_explicit_timeline ticks 9 st (record parted { k = some 3 } ∷ []) ctx
    ≡ some (err timeline_d_not_divisible_by_k)
unfolding segments_from_explicit_timeline Explicit.expand_entries expand_entry Explicit.checked
uneven = refl

segments_from_explicit_timeline-unroll_example :
    segments_from_explicit_timeline ticks 9 st (unroll timeline) ctx
    ≡ segments_from_explicit_timeline ticks 9 st timeline ctx
segments_from_explicit_timeline-unroll_example =
    segments_from_explicit_timeline-unroll ticks 9 st timeline ctx

segments_from_explicit_timeline-EndsWithin_example :
    EndsWithin ticks
      (λ segments. segments)
      (segments_from_explicit_timeline ticks 1_000_001 st (until_next ∷ []) ctx)
segments_from_explicit_timeline-EndsWithin_example =
    segments_from_explicit_timeline-EndsWithin ticks 1_000_001 st (until_next ∷ []) ctx
      (omega arith)

segments_from_explicit_timeline-PlaysThrough_example :
    PlaysThrough ticks (grid_of ticks st ctx) 100 150 8 (
      segments_from_explicit_timeline ticks 0 st
        (parted ∷ record (lasting 10) { r = some (pos 1) } ∷ [])
        ctx)
segments_from_explicit_timeline-PlaysThrough_example =
    segments_from_explicit_timeline-PlaysThrough ticks 0 st ctx parted
      (record (lasting 10) { r = some (pos 1) } ∷ []) (omega arith)
      (
        record { lasts = omega arith; some_each = omega arith; divided = refl; counted = refl },
        refl,
        (
          record { lasts = omega arith; some_each = omega arith; divided = refl; counted = refl },
          refl,
          tt,
        ),
      )
      (omega arith) (omega arith)

abbrev so_far : State ticks
so_far = record { segments = []; current_number = 10; current_time = some 130 }

expand_entry-next_t_example :
    expand_entry ticks 9
      (grid_of ticks st ctx)
      ctx
      (record (lasting 4) { t = some 165 } ∷ [])
      until_next
      so_far
    ≡ expand_entry ticks 9
        (grid_of ticks st ctx)
        ctx
        (record (lasting 4) { t = some 165 } ∷ [])
        (record until_next { r = some (pos 3) })
        so_far
expand_entry-next_t_example =
    expand_entry-next_t ticks 9 (grid_of ticks st ctx) ctx
      (record (lasting 4) { t = some 165 } ∷ []) until_next so_far 165 0 3
      (unfold Explicit.next_t in refl) refl (omega arith) (omega arith) (omega arith) (omega arith)
      (omega arith)

-- A Period of 10 s in segments of 4 s.
abbrev three_segments : List (TimelineSegment ℕ)
three_segments = of_run ticks (uniform_of ticks st 40_000_000_000) none ctx 0 3

segments_from_duration_template-Numbered_example :
    (three_segments ≡ []) ⊎ Numbered ticks 1 none three_segments
unfolding segments_from_duration_template Timeline.period_length_secs Timeline.period_length
    Template.duration_segments Template.static_segments Template.static_duration_segment_count
    Template.length_secs Template.uniform_of Template.bounded Template.run
    Template.bound_last_static_duration_segment
segments_from_duration_template-Numbered_example =
    segments_from_duration_template-Numbered ticks st ctx none three_segments refl (omega arith)

segments_from_duration_template-Exactly_example :
    Exactly ticks 1 5 (segments_from_duration_template ticks st ctx (some 5))
segments_from_duration_template-Exactly_example =
    segments_from_duration_template-Exactly ticks st ctx 5 40_000_000_000 refl refl (omega arith)
      refl (omega arith) (omega arith)
