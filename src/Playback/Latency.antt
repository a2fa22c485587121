-- ===== src/Playback/Latency.antt =====
-- Low-latency catch-up (src/clock/latency_control.rs): the policy, the live clock and `evaluate`.
-- The wall clock is an argument `now`. Reading the policy from an MPD (`from_mpd`) is not modelled.
use dashplay_rs.Prelude.{
  ℕ, ◌+◌, ◌-◌, Bool, true, false, not, ◌&&◌, ◌||◌, Option, none, some, if◌then◌else◌,
}
use dashplay_rs.Prelude
use dashplay_rs.Float.{F64}
use dashplay_rs.Time.{saturating_add}

pub record LatencyPolicy (R : Type 0) : Type 0 where
  pub target : ℕ
  pub min : Option ℕ
  pub max : Option ℕ
  pub rate_min : R
  pub rate_max : R

pub record LiveClock : Type 0 where
  pub since_ast_at_anchor : ℕ
  pub anchor : ℕ

pub record LatencyControlUpdate (R : Type 0) : Type 0 where
  pub latency : ℕ
  pub rate : R
  pub rate_changed : Bool
  pub seek_target : Option ℕ

-- `LiveClock::since_ast_now`; `Instant::elapsed` stops at 0.
unfoldable pub since_ast_now : LiveClock → ℕ → ℕ
since_ast_now clock now = saturating_add clock.since_ast_at_anchor (now - clock.anchor)

unfoldable pub live_latency : ℕ → ℕ → ℕ
live_latency since_ast presentation_time = since_ast - presentation_time

module _ {R : Type 0} where
  -- `current_latency > max && max > policy.target`, and false without a `@max`.
  unfoldable pub should_seek_to_target : ℕ → LatencyPolicy R → Bool
  should_seek_to_target latency policy = elim policy.max [
    | none ↦ false
    | some hi ↦ Prelude.ltb hi latency && Prelude.ltb policy.target hi
  ]

  unfoldable pub target_presentation_time : ℕ → LatencyPolicy R → ℕ
  target_presentation_time since_ast policy = since_ast - policy.target

module _ (fl : F64) where
  open fl use {Value, literal, ltb, leb, eqb, add, sub, mul, div, neg, abs, exp, clamp, as_secs}

  abbrev target_tolerance_s : Value
  target_tolerance_s = literal 2 100

  abbrev min_rate_change : Value
  min_rate_change = literal 1 100

  -- `if let Some(min) = policy.min { if current_s < min.as_secs_f64() … }`
  below_min : Option ℕ → Value → Bool
  below_min none current_s = false
  below_min (some lo) current_s = ltb current_s (as_secs lo)

  above_max : Option ℕ → Value → Bool
  above_max none current_s = false
  above_max (some hi) current_s = ltb (as_secs hi) current_s

  catchup_range : Value → LatencyPolicy Value → Value
  catchup_range delta policy =
      if ltb delta (literal 0 1)
      then abs (sub (literal 1 1) policy.rate_min)
      else abs (sub policy.rate_max (literal 1 1))

  sigmoid_rate : Value → Value → LatencyPolicy Value → Value
  sigmoid_rate range delta policy =
      let s =
        div (mul range (literal 2 1)) (add (literal 1 1) (exp (neg (mul delta (literal 5 1))))) in
      clamp (add (sub (literal 1 1) range) s) policy.rate_min policy.rate_max

  unfoldable pub suggested_playback_rate : ℕ → LatencyPolicy Value → Value
  unfolding below_min above_max catchup_range sigmoid_rate
  suggested_playback_rate current_latency policy =
      let current_s = as_secs current_latency in
      let delta = sub current_s (as_secs policy.target) in
      let range = catchup_range delta policy in
      if leb (abs delta) target_tolerance_s
      then literal 1 1
      else if below_min policy.min current_s
      then policy.rate_min
      else if above_max policy.max current_s
      then policy.rate_max
      else if eqb range (literal 0 1)
      then literal 1 1
      else sigmoid_rate range delta policy

  rate_moved : Value → Value → Bool
  rate_moved rate previous_rate =
      leb min_rate_change (abs (sub rate previous_rate))
      || (eqb rate (literal 1 1) && not (eqb previous_rate (literal 1 1)))

  unfoldable pub evaluate :
      LiveClock → ℕ → LatencyPolicy Value → Value → ℕ → LatencyControlUpdate Value
  unfolding since_ast_now live_latency should_seek_to_target target_presentation_time rate_moved
  evaluate clock presentation_time policy previous_rate now =
      let since_ast = since_ast_now clock now in
      let latency = live_latency since_ast presentation_time in
      let rate = suggested_playback_rate latency policy in
      record {
        latency = latency;
        rate = rate;
        rate_changed = rate_moved rate previous_rate;
        seek_target =
            if should_seek_to_target latency policy
            then some (target_presentation_time since_ast policy)
            else none;
      }
