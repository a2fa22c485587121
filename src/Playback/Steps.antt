-- ===== src/Playback/Steps.antt =====
-- Every operation of the controller as a transition, and the sessions that a run can reach. The
-- operations come in any order, from any task, with any arguments.
use dashplay_rs.Prelude.{ℕ, Bool, Option}
use dashplay_rs.Float.{F64}
use dashplay_rs.Abr.Constraints.{QualityConstraints}
use dashplay_rs.Playback.Latency.{LatencyPolicy}
use dashplay_rs.Playback.State.{Session, PlaybackState, PausePolicy, new}
use dashplay_rs.Playback.Control.{
  set_state, mark_error, pause, set_pause_policy, resume, seek, set_track_selection,
  set_quality_constraints, set_quality_for, set_auto_switch_bitrate, stop, take_seek_target,
  take_track_selection, reset_track_delivered_ends,
}
use dashplay_rs.Playback.Rate.{
  set_playback_rate, set_max_playout_rate_cap, set_min_buffer_s, set_latency_control, mark_started,
}
use dashplay_rs.Playback.Clock.{
  record_segment_delivery, advance_media_clock, resync_media_clock_from_buffer, update_stall_state,
  on_media_delivered,
}
use dashplay_rs.Playback.Catchup.{refresh_latency_control}

-- A call of the controller, with its arguments.
pub data Call (R S : Type 0) : Type 0 where
  starts : ℕ → Call R S
  pauses : Call R S
  resumes : Call R S
  seeks : ℕ → Call R S
  stops : Call R S
  selects : S → Call R S
  constrains : QualityConstraints → Call R S
  constrains_unchecked : QualityConstraints → Call R S
  pins : ℕ → Call R S
  auto_switches : Bool → Call R S
  sets_state : PlaybackState → Call R S
  fails : Call R S
  sets_policy : PausePolicy → Call R S
  sets_rate : Option R → Call R S
  caps_rate : Option R → Call R S
  sets_min_buffer : R → Call R S
  sets_latency : Option (LatencyPolicy R) → Option ℕ → ℕ → Call R S
  refreshes : ℕ → Call R S
  delivers : ℕ → ℕ → ℕ → Call R S
  advances : ℕ → Call R S
  resyncs : ℕ → R → Call R S
  watches : R → Call R S
  plays : ℕ → Call R S
  drops_ends : Call R S
  takes_target : Call R S
  takes_selection : Call R S

module _ (fl : F64) {S : Type 0} where
  open fl use {Value}

  unfoldable pub perform : Call Value S → Session Value S → Session Value S
  perform (starts now) c = mark_started fl now c
  perform pauses c = (pause c).1
  perform resumes c = (resume c).1
  perform (seeks t) c = (seek t c).1
  perform stops c = (stop c).1
  perform (selects s) c = (set_track_selection s c).1
  perform (constrains q) c = (set_quality_constraints q c).1
  perform (constrains_unchecked q) c = record c { quality_constraints = q }
  perform (pins i) c = (set_quality_for i c).1
  perform (auto_switches b) c = (set_auto_switch_bitrate b c).1
  perform (sets_state s) c = set_state s c
  perform fails c = mark_error c
  perform (sets_policy p) c = set_pause_policy p c
  perform (sets_rate r) c = (set_playback_rate fl r c).1
  perform (caps_rate r) c = set_max_playout_rate_cap fl r c
  perform (sets_min_buffer v) c = set_min_buffer_s fl v c
  perform (sets_latency p since_ast now) c = set_latency_control fl p since_ast now c
  perform (refreshes now) c = (refresh_latency_control fl now c).1
  perform (delivers i start end) c = (record_segment_delivery i start end c).1
  perform (advances now) c = (advance_media_clock fl now c).1
  perform (resyncs i b) c = resync_media_clock_from_buffer fl i b c
  perform (watches b) c = update_stall_state fl b c
  perform (plays i) c = on_media_delivered fl i c
  perform drops_ends c = reset_track_delivered_ends c
  perform takes_target c = (take_seek_target c).1
  perform takes_selection c = (take_track_selection c).1

  -- The sessions that a new controller can come to.
  pub data Reach : Session Value S → Type 0 where
    fresh : Reach (new fl S)
    step : {c : Session Value S} (call : Call Value S) → Reach c → Reach (perform call c)
