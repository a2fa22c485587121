-- ===== src/Playback/Examples.antt =====
-- Runs of the controller at concrete inputs, with the fixed-point numbers of Ticks in place of `f64`.
use dashplay_rs.Prelude.{
  ℕ, ◌≡◌, refl, true, false, none, some, zero, suc, [], ◌∷◌, ok, err, inl, arith,
}
use dashplay_rs.Float.Ticks.{ticks}
use dashplay_rs.Abr.Constraints.{default_constraints}
use dashplay_rs.Playback.State.{Session, PlaybackState, new, stop_and_cancel_inflight}
use dashplay_rs.Playback.Control
use dashplay_rs.Playback.Rate
use dashplay_rs.Playback.Clock
use dashplay_rs.Playback.Steps
use dashplay_rs.Playback.Steps.{
  Reach, fresh, step, starts, pauses, seeks, delivers, plays, advances,
}
use dashplay_rs.Playback.Consistency
use dashplay_rs.Playback.Consistency.Rules.{IsConsistent}
use dashplay_rs.Playback.Commands
use dashplay_rs.Playback.Commands.{refusal}
use dashplay_rs.Playback.Ends.{Covers}
use dashplay_rs.Playback.Delivery
use dashplay_rs.Playback.Delivery.{MovesOn}
use dashplay_rs.Playback.Stall

abbrev idle_session : Session ℕ ℕ
idle_session = new ticks ℕ

-- A session that plays at 2 s of 8 s delivered on one track, and may cancel on pause.
abbrev playing_session : Session ℕ ℕ
playing_session = record {
  state = PlaybackState.playing;
  playhead = some 2_000_000_000;
  is_started = true;
  is_paused = false;
  is_stopped = false;
  pause_policy = stop_and_cancel_inflight;
  fetch_cancel = 0;
  seek_target = none;
  seek_generation = 5;
  pending_track_selection = none;
  quality_constraints = default_constraints;
  track_delivered_ends = some 8_000_000_000 ∷ [];
  media_clock = some 2_000_000_000;
  media_clock_wall = some 100;
  min_buffer_s = 2_000_000_000;
  buffer_was_healthy = true;
  has_started_playing = true;
  latency_policy = none;
  live_clock = none;
  suggested_rate = 1_000_000_000;
  live_latency = none;
  latency_seek_armed = true;
  user_playback_rate = none;
  max_playout_rate_cap = none;
}

playing_active : Control.require_active playing_session ≡ ok tt
unfolding Control.require_active
playing_active = refl

playing_Covers : Covers playing_session.track_delivered_ends 2_000_000_000
unfolding Clock.end_of
playing_Covers zero e p = ground arith
playing_Covers (suc i) e p = cc

Reach-IsConsistent_example : IsConsistent (
    Steps.perform ticks (plays 0) (
      Steps.perform ticks
        (delivers 0 0 4_000_000_000)
        (Steps.perform ticks (starts 0) idle_session)))
Reach-IsConsistent_example =
    Consistency.Reach-IsConsistent ticks
      (step (plays 0) (step (delivers 0 0 4_000_000_000) (step (starts 0) fresh)))

commands_refused_example : Control.pause idle_session ≡ (err (refusal idle_session), idle_session)
unfolding new
commands_refused_example =
    (Commands.commands_refused ticks idle_session 0 7 default_constraints none (inl refl)).0

pause-is_cancelled_example :
    Control.is_cancelled
      (Control.fetch_cancel_guard playing_session)
      (Control.pause playing_session).1
    ≡ true
pause-is_cancelled_example =
    Commands.pause-is_cancelled playing_session playing_active (omega arith)

seek-takes_example : (Control.take_seek_target (Control.seek 9 playing_session).1).0 ≡ some 9
seek-takes_example = (Commands.seek-takes playing_session playing_active 9 0).0

set_track_selection-interrupts_example :
    (Control.take_seek_target (Control.set_track_selection 3 playing_session).1).0
    ≡ some 2_000_000_000
set_track_selection-interrupts_example =
    (Commands.set_track_selection-interrupts playing_session playing_active 3 0).2

a_new_limit_interrupts :
    (Control.set_quality_constraints default_constraints playing_session).1.quality_constraints
    ≡ default_constraints
a_new_limit_interrupts =
    (Commands.set_quality_constraints-interrupts playing_session playing_active
      default_constraints).0

a_quality_for_a_track_is_quiet :
    (Control.set_quality_for 2 playing_session).1 ≡ record playing_session {
      quality_constraints = record default_constraints {
        auto_switch = false;
        fixed_quality_index = some 2;
      };
    }
a_quality_for_a_track_is_quiet =
    (Commands.set_quality_for-quiet playing_session playing_active 2 true).0

advance_media_clock-MovesOn_example :
    MovesOn ticks 2_000_000_000 playing_session
      (Clock.advance_media_clock ticks 5_000_000_100 playing_session).1
advance_media_clock-MovesOn_example =
    (Delivery.advance_media_clock-MovesOn ticks 5_000_000_100 2_000_000_000 playing_session refl
      playing_Covers).0

record_segment_delivery-extends_example :
    (Clock.record_segment_delivery 1 0 4 playing_session).1.media_clock ≡ some 2_000_000_000
record_segment_delivery-extends_example =
    (Delivery.record_segment_delivery-extends ticks 1 0 4 playing_session).2

resync-buffered_example :
    Clock.estimated_buffer_s ticks 0
      (Clock.resync_media_clock_from_buffer ticks 0 6 playing_session)
    ≡ 6
unfolding Rate.positive
resync-buffered_example = (Delivery.resync-buffered ticks 0 6 playing_session).0 6 refl

update_stall_state-StallStep_example :
    Stall.StallStep ticks 0 playing_session (Clock.update_stall_state ticks 0 playing_session)
update_stall_state-StallStep_example =
    (Stall.update_stall_state-StallStep ticks 0 playing_session).0

on_media_delivered-seek_example :
    (Clock.on_media_delivered ticks 0
      (Clock.record_segment_delivery 0 8_000_000_000 12_000_000_000 (
        Control.set_state PlaybackState.buffering
          (Control.seek 9_000_000_000 playing_session).1)).1).state
    ≡ PlaybackState.playing
on_media_delivered-seek_example =
    (Stall.on_media_delivered-seek ticks 9_000_000_000 0 8_000_000_000 12_000_000_000
      playing_session playing_active refl refl).2

-- Three seconds of wall time at rate 1 move the clock from 2 s to 5 s.
advance_three_seconds :
    (Clock.advance_media_clock ticks 3_000_000_100 playing_session).1.media_clock
    ≡ some 5_000_000_000
unfolding Clock.advance_media_clock Clock.moved Clock.min_delivered_end Rate.playback_rate
    Rate.positive Clock.capped
advance_three_seconds = refl
