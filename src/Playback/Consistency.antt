-- ===== src/Playback/Consistency.antt =====
-- The invariant of the flags, the lifecycle state and the clock of a session, over all calls
-- (src/playback_control.rs).
pub mod Rules
mod Commands
mod Media
use dashplay_rs.Prelude.{
  ℕ, ◌≡◌, refl, ◌⊎◌, inl, inr, ◌≢◌, Bool, true, false, Option, none, some, arith, Bool-cases,
  if_rule, Option-cases, if◌then◌else◌, ◌||◌, ◌∙◌, unwrap_or, ◌==◌,
}
use dashplay_rs.Float.{F64}
use dashplay_rs.Abr.Constraints.{QualityConstraints}
use dashplay_rs.Playback.Latency.{LatencyControlUpdate, LatencyPolicy, LiveClock}
use dashplay_rs.Playback.State.{Session, PlaybackState, new}
use dashplay_rs.Playback.Control
use dashplay_rs.Playback.Effects.{reposition_lem, set_media_clock_lem, set_presentation_time_lem}
use dashplay_rs.Playback.Rate
use dashplay_rs.Playback.Clock
use dashplay_rs.Playback.Catchup
use dashplay_rs.Playback.Steps.{
  Call, Reach, fresh, step, perform, starts, pauses, resumes, seeks, stops, selects, constrains,
  constrains_unchecked, pins, auto_switches, sets_state, fails, sets_policy, sets_rate, caps_rate,
  sets_min_buffer, sets_latency, refreshes, delivers, advances, resyncs, watches, plays, drops_ends,
  takes_target, takes_selection,
}
use Rules.{IsConsistent, transfer}
use Commands.{
  new-IsConsistent, mark_started-IsConsistent, seek-IsConsistent, set_track_selection-IsConsistent,
  set_quality_constraints-IsConsistent,
}
use Media.{
  record_segment_delivery-IsConsistent, refresh-IsConsistent, advance-IsConsistent,
  resync-IsConsistent, stall-IsConsistent, plays-IsConsistent,
}

module _ (fl : F64) {S : Type 0} where
  open fl use {Value}

  -- Every call keeps a consistent session consistent.
  perform-IsConsistent :
      (call : Call Value S) (c : Session Value S)
      → IsConsistent c
      → IsConsistent (perform fl call c)
  unfolding perform Control.set_pause_policy
  perform-IsConsistent (starts now) c v = mark_started-IsConsistent fl now c
  perform-IsConsistent pauses c v = unfold Control.pause in ground arith
  perform-IsConsistent resumes c v = unfold Control.resume in ground arith
  perform-IsConsistent (seeks t) c v = seek-IsConsistent t c v
  perform-IsConsistent stops c v = unfold Control.stop in ground arith
  perform-IsConsistent (selects s) c v = set_track_selection-IsConsistent s c v
  perform-IsConsistent (constrains q) c v = set_quality_constraints-IsConsistent q c v
  perform-IsConsistent (constrains_unchecked q) c v =
      transfer refl refl refl refl refl v.shows_clock v
  perform-IsConsistent (pins i) c v =
      unfold Control.set_quality_for in set_quality_constraints-IsConsistent _ c v
  perform-IsConsistent (auto_switches b) c v =
      unfold Control.set_auto_switch_bitrate in set_quality_constraints-IsConsistent _ c v
  perform-IsConsistent (sets_state s) c v = unfold Control.set_state in ground arith
  perform-IsConsistent fails c v = unfold Control.mark_error in ground arith
  perform-IsConsistent (sets_policy p) c v = transfer refl refl refl refl refl v.shows_clock v
  perform-IsConsistent (sets_rate r) c v = unfold Rate.set_playback_rate in ground arith
  perform-IsConsistent (caps_rate r) c v = unfold Rate.set_max_playout_rate_cap in ground arith
  perform-IsConsistent (sets_min_buffer b) c v = unfold Rate.set_min_buffer_s in ground arith
  perform-IsConsistent (sets_latency p since_ast now) c v =
      unfold Rate.set_latency_control in ground arith
  perform-IsConsistent (refreshes now) c v = refresh-IsConsistent fl now c v
  perform-IsConsistent (delivers i start end) c v =
      record_segment_delivery-IsConsistent i start end c v
  perform-IsConsistent (advances now) c v = advance-IsConsistent fl now c v
  perform-IsConsistent (resyncs i b) c v = resync-IsConsistent fl i b c v
  perform-IsConsistent (watches b) c v = stall-IsConsistent fl b c v
  perform-IsConsistent (plays i) c v = plays-IsConsistent fl i c v
  perform-IsConsistent drops_ends c v =
      unfold Control.reset_track_delivered_ends in transfer refl refl refl refl refl v.shows_clock v
  perform-IsConsistent takes_target c v =
      unfold Control.take_seek_target in transfer refl refl refl refl refl v.shows_clock v
  perform-IsConsistent takes_selection c v =
      unfold Control.take_track_selection in transfer refl refl refl refl refl v.shows_clock v

  -- In every session that calls can reach, in any order: a paused session has started, has not
  -- stopped and is not playing; a stopped one is in `Ended` or `Error`; neither holds a wall sample,
  -- so the media clock stands still; and the published playhead is the media clock.
  pub Reach-IsConsistent : {c : Session Value S} → Reach fl c → IsConsistent c
  Reach-IsConsistent fresh = new-IsConsistent fl
  Reach-IsConsistent (step call r) = perform-IsConsistent call _ (Reach-IsConsistent r)
