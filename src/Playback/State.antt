-- ===== src/Playback/State.antt =====
-- The session's state (src/playback_control.rs): `Inner` without its locks. Every method takes its
-- locks one after the other; the model runs each method as one transition. A `watch` channel is
-- its current value: the session keeps a receiver of each, so a send always stores. A track
-- selection is a value that the controller only stores, so its type is a parameter.
use dashplay_rs.Prelude.{ℕ, Bool, true, false, Option, none, List, []}
use dashplay_rs.Float.{F64}
use dashplay_rs.Abr.Constraints.{QualityConstraints, default_constraints}
use dashplay_rs.Playback.Latency.{LatencyPolicy, LiveClock}

pub data PlaybackState : Type 0 where
  idle loading_manifest buffering playing paused seeking ended error : PlaybackState

pub data PlaybackControlError : Type 0 where
  not_active stopped invalid_playback_rate : PlaybackControlError

pub record PausePolicy : Type 0 where
  pub schedule_while_paused : Bool
  pub cancel_inflight_on_pause : Bool

-- `PausePolicy::default`, `stop_while_paused` and `stop_and_cancel_inflight`
abbrev pub default_policy : PausePolicy
default_policy = record { schedule_while_paused = true; cancel_inflight_on_pause = false }

abbrev pub stop_while_paused : PausePolicy
stop_while_paused = record { schedule_while_paused = false; cancel_inflight_on_pause = false }

abbrev pub stop_and_cancel_inflight : PausePolicy
stop_and_cancel_inflight = record { schedule_while_paused = false; cancel_inflight_on_pause = true }

-- `R` is the type of rates and seconds, `S` of track selections.
pub record Session (R S : Type 0) : Type 0 where
  pub state : PlaybackState
  pub playhead : Option ℕ
  pub is_started : Bool
  pub is_paused : Bool
  pub is_stopped : Bool
  pub pause_policy : PausePolicy
  pub fetch_cancel : ℕ
  pub seek_target : Option ℕ
  pub seek_generation : ℕ
  pub pending_track_selection : Option S
  pub quality_constraints : QualityConstraints
  pub track_delivered_ends : List (Option ℕ)
  pub media_clock : Option ℕ
  pub media_clock_wall : Option ℕ
  pub min_buffer_s : R
  pub buffer_was_healthy : Bool
  pub has_started_playing : Bool
  pub latency_policy : Option (LatencyPolicy R)
  pub live_clock : Option LiveClock
  pub suggested_rate : R
  pub live_latency : Option ℕ
  pub latency_seek_armed : Bool
  pub user_playback_rate : Option R
  pub max_playout_rate_cap : Option R

-- `PlaybackController::new`
unfoldable pub new : (fl : F64) (S : Type 0) → Session fl.Value S
new fl S = record {
  state = PlaybackState.idle;
  playhead = none;
  is_started = false;
  is_paused = false;
  is_stopped = false;
  pause_policy = default_policy;
  fetch_cancel = 0;
  seek_target = none;
  seek_generation = 0;
  pending_track_selection = none;
  quality_constraints = default_constraints;
  track_delivered_ends = [];
  media_clock = none;
  media_clock_wall = none;
  min_buffer_s = fl.literal 2 1;
  buffer_was_healthy = false;
  has_started_playing = false;
  latency_policy = none;
  live_clock = none;
  suggested_rate = fl.literal 1 1;
  live_latency = none;
  latency_seek_armed = true;
  user_playback_rate = none;
  max_playout_rate_cap = none;
}
