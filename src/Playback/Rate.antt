-- ===== src/Playback/Rate.antt =====
-- The playback rate, the settings that hold floats, the latency control and the start of a session
-- (src/playback_control.rs). The wall clock is an argument `now`.
use dashplay_rs.Prelude.{
  ℕ, Bool, true, false, not, ◌&&◌, ◌||◌, Option, none, some, if◌then◌else◌, ok, err, unwrap_or,
  is_none,
}
use dashplay_rs.Float.{F64}
use dashplay_rs.Playback.Latency.{LatencyPolicy, LiveClock}
use dashplay_rs.Playback.State.{Session, PlaybackState, PlaybackControlError}
use dashplay_rs.Playback.Control.{
  Reply, require_active, clear_media_clock_wall, reset_track_delivered_ends, set_media_clock,
}

-- `since_ast.map(LiveClock::new)`
live_clock_from : Option ℕ → ℕ → Option LiveClock
live_clock_from none now = none
live_clock_from (some t) now = some (record { since_ast_at_anchor = t; anchor = now })

module _ (fl : F64) where
  open fl use {Value, literal, is_finite, ltb, leb}

  unfoldable pub positive : Value → Bool
  positive v = is_finite v && ltb (literal 0 1) v

  base_rate : Option Value → Value → Value
  unfolding positive
  base_rate user_rate suggested =
      let base = unwrap_or user_rate suggested in if positive base then base else literal 1 1

  unfoldable pub effective_playback_rate : Option Value → Value → Option Value → Value
  unfolding base_rate positive
  effective_playback_rate user_rate suggested none = base_rate user_rate suggested
  effective_playback_rate user_rate suggested (some upper) =
      let base = base_rate user_rate suggested in if positive upper then fl.min base upper else base

  -- `!rate.is_finite() || rate <= 0.0`
  invalid_rate : Option Value → Bool
  invalid_rate none = false
  invalid_rate (some rate) = not (is_finite rate) || leb rate (literal 0 1)

  usable_cap : Option Value → Option Value
  usable_cap none = none
  usable_cap (some v) = if positive v then some v else none

module _ (fl : F64) {S : Type 0} where
  open fl use {Value, literal, is_finite, leb}

  unfoldable pub playback_rate : Session Value S → Value
  unfolding effective_playback_rate
  playback_rate c =
      effective_playback_rate fl c.user_playback_rate c.suggested_rate c.max_playout_rate_cap

  unfoldable pub set_playback_rate : Option Value → Session Value S → Reply (Session Value S)
  unfolding require_active clear_media_clock_wall invalid_rate
  set_playback_rate rate c = elim (require_active c) [
    | err e ↦ (err e, c)
    | ok _ ↦
        if invalid_rate fl rate
        then (err PlaybackControlError.invalid_playback_rate, c)
        else (ok tt, clear_media_clock_wall (record c { user_playback_rate = rate }))
  ]

  unfoldable pub set_max_playout_rate_cap : Option Value → Session Value S → Session Value S
  unfolding usable_cap positive
  set_max_playout_rate_cap upper c = record c { max_playout_rate_cap = usable_cap fl upper }

  unfoldable pub set_min_buffer_s : Value → Session Value S → Session Value S
  set_min_buffer_s v c =
      let value = if is_finite v && leb (literal 0 1) v then v else literal 2 1 in
      record c { min_buffer_s = value }

  unfoldable pub set_latency_control :
      Option (LatencyPolicy Value) → Option ℕ → ℕ → Session Value S → Session Value S
  unfolding live_clock_from
  set_latency_control policy since_ast now c =
      let d = record c {
        latency_policy = policy;
        live_clock = live_clock_from since_ast now;
        latency_seek_armed = true;
      } in
      if is_none policy then record d { suggested_rate = literal 1 1; live_latency = none } else d

  unfoldable pub mark_started : ℕ → Session Value S → Session Value S
  unfolding reset_track_delivered_ends set_media_clock set_latency_control
  mark_started now c =
      let d =
        reset_track_delivered_ends
          (record c { is_started = true; is_stopped = false; is_paused = false }) in
      let e =
        set_media_clock none
          (record d { buffer_was_healthy = false; has_started_playing = false }) in
      let f = set_latency_control none none now e in
      record f {
        user_playback_rate = none;
        max_playout_rate_cap = none;
        state = PlaybackState.loading_manifest;
      }
