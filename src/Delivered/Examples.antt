-- ===== src/Delivered/Examples.antt =====
-- A tracker at concrete inputs.
use dashplay_rs.Prelude.{ℕ, ◌*◌, ◌≡◌, refl, true, none, [], ◌∷◌}
use dashplay_rs.Float.Ticks.{ticks}
use dashplay_rs.Manifest.Types.{TimelineSegment}
use dashplay_rs.Delivered
use dashplay_rs.Delivered.{
  DeliveredSegmentTracker, is_delivered, mark_delivered, advance_start_index,
}
use dashplay_rs.Delivered.Tracking.{
  IsAdvanced, advance_start_index-IsAdvanced, mark_delivered-is_delivered,
}

abbrev at : ℕ → TimelineSegment ℕ
at n = record {
  number = n;
  time = n * 90_000;
  duration = 90_000;
  duration_s = 1_000_000_000;
  presentation_time_s = n * 1_000_000_000;
  sub_number = none;
  resync_start_chunk = none;
  media_url = none;
  media_range = none;
}

abbrev empty : DeliveredSegmentTracker ℕ
empty = record {
  keys = [];
  media_urls = [];
  last_end_s = 0;
  last_abs_end_s = 0;
  active_period_start_s = 0;
}

the_third_is_next :
    advance_start_index ticks
      (at 0 ∷ at 1 ∷ at 2 ∷ [])
      0
      0
      (mark_delivered ticks (at 1) 0 (mark_delivered ticks (at 0) 0 empty))
    ≡ 2
unfolding advance_start_index mark_delivered is_delivered Delivered.enter_period
    Delivered.other_period Delivered.skipped Delivered.seg_end_s Delivered.known_url
    Delivered.with_url
the_third_is_next = refl

advance_start_index-IsAdvanced_example :
    IsAdvanced ticks 0
      (mark_delivered ticks (at 0) 0 empty)
      (at 0 ∷ at 1 ∷ [])
      0
      (advance_start_index ticks (at 0 ∷ at 1 ∷ []) 0 0 (mark_delivered ticks (at 0) 0 empty))
advance_start_index-IsAdvanced_example =
    advance_start_index-IsAdvanced ticks 0 (mark_delivered ticks (at 0) 0 empty) (at 0 ∷ at 1 ∷ [])
      0

mark_delivered-is_delivered_example :
    is_delivered ticks (at 1) 0 (mark_delivered ticks (at 1) 0 empty) ≡ true
mark_delivered-is_delivered_example =
    mark_delivered-is_delivered ticks 0 empty (at 1) (unfold Delivered.other_period in refl)
