-- ===== src/Abr/DroppedFrames/Examples.antt =====
-- A history of frames at concrete inputs.
use dashplay_rs.Prelude.{◌+◌, ◌≡◌, refl, arith, some, List, [], ◌∷◌}
use dashplay_rs.Float.Ticks.{ticks}
use dashplay_rs.Abr.DroppedFrames
use dashplay_rs.Abr.DroppedFrames.{
  DroppedFramesParams, with_params, quality_cap, Call, pushes, activates, call_all,
}
use dashplay_rs.Abr.DroppedFrames.Cap.{IsCap, quality_cap-IsCap}
use dashplay_rs.Abr.DroppedFrames.Accounting.{total_of, call_all-IsAccounted_from}

abbrev params : DroppedFramesParams ticks
params = record { minimum_sample_size = 100; dropped_frames_percentage_threshold = 150_000_000 }

-- Of 200 frames at quality 2 the half is dropped, of 200 at quality 1 none is.
abbrev session : List Call
session = activates 2 ∷ pushes 10 1000 ∷ pushes 110 1200 ∷ activates 1 ∷ pushes 110 1400 ∷ []

below_two : quality_cap ticks (call_all ticks session (with_params ticks params)) ≡ some 1
unfolding quality_cap with_params DroppedFrames.sanitized DroppedFrames.set_active_quality
    DroppedFrames.push DroppedFrames.attributed DroppedFrames.attribute DroppedFrames.added
    DroppedFrames.cap_of DroppedFrames.exceeds
below_two = refl

quality_cap-IsCap_example :
    IsCap ticks
      (call_all ticks session (with_params ticks params)).params
      (call_all ticks session (with_params ticks params)).by_quality
      (quality_cap ticks (call_all ticks session (with_params ticks params)))
quality_cap-IsCap_example = quality_cap-IsCap ticks params session

call_all-IsAccounted_from_example :
    total_of (call_all ticks session (with_params ticks params)).by_quality + 1000 ≡ 1400
call_all-IsAccounted_from_example =
    (call_all-IsAccounted_from ticks params 2 10 1000
      (pushes 110 1200 ∷ activates 1 ∷ pushes 110 1400 ∷ [])
      (
        omega arith,
        omega arith,
        omega arith,
        omega arith,
        (omega arith, omega arith, omega arith, omega arith, tt),
      )).0
