-- ===== src/Playback/Control.antt =====
-- The commands of the controller (src/playback_control.rs): play, pause, seek, stop and the
-- settings. A command that can fail returns its result beside the session.
use dashplay_rs.Prelude.{
  ℕ, ◌+◌, ◌-◌, ◌^◌, ◌%◌, min, Bool, true, false, not, ◌&&◌, Option, none, some, [], if◌then◌else◌,
  Result, ok, err, unwrap_or,
}
use dashplay_rs.Abr.Constraints.{QualityConstraints, ladder_filter_changed, eq_option}
use dashplay_rs.Playback.State.{Session, PlaybackState, PlaybackControlError, PausePolicy}

abbrev pub Reply : Type 0 → Type 0
Reply A = Result PlaybackControlError (Unit {0}) × A

module _ {R S : Type 0} where
  unfoldable pub require_active : Session R S → Result PlaybackControlError (Unit {0})
  require_active c =
      if not c.is_started
      then err PlaybackControlError.not_active
      else if c.is_stopped
      then err PlaybackControlError.stopped
      else ok tt

  unfoldable pub clear_media_clock_wall : Session R S → Session R S
  clear_media_clock_wall c = record c { media_clock_wall = none }

  unfoldable pub reset_track_delivered_ends : Session R S → Session R S
  reset_track_delivered_ends c = record c { track_delivered_ends = [] }

  -- The flag says whether the playhead changed.
  unfoldable pub set_presentation_time : Option ℕ → Session R S → Bool × Session R S
  set_presentation_time t c =
      if eq_option c.playhead t then (false, c) else (true, record c { playhead = t })

  unfoldable pub set_media_clock : Option ℕ → Session R S → Session R S
  unfolding clear_media_clock_wall set_presentation_time
  set_media_clock t c =
      (set_presentation_time t (clear_media_clock_wall (record c { media_clock = t }))).1

  unfoldable pub bump_fetch_cancel : Session R S → Session R S
  bump_fetch_cancel c = record c { fetch_cancel = min (c.fetch_cancel + 1) (2 ^ 64 - 1) }

  -- A stopped session takes no state but `error`.
  stopped_state : PlaybackState → Session R S → Session R S
  stopped_state PlaybackState.error c = record c { state = PlaybackState.error }
  stopped_state _ c = c

  paused_state : PlaybackState → Session R S → Session R S
  paused_state PlaybackState.paused c = record c { state = PlaybackState.paused }
  paused_state PlaybackState.seeking c = record c { state = PlaybackState.seeking }
  paused_state PlaybackState.ended c = record c { state = PlaybackState.ended }
  paused_state PlaybackState.error c = record c { state = PlaybackState.error }
  paused_state _ c = c

  unfoldable pub set_state : PlaybackState → Session R S → Session R S
  unfolding stopped_state paused_state
  set_state s c =
      if c.is_stopped
      then stopped_state s c
      else if c.is_paused
      then paused_state s c
      else record c { state = s }

  unfoldable pub mark_error : Session R S → Session R S
  mark_error c = record c { state = PlaybackState.error }

  unfoldable pub pause : Session R S → Reply (Session R S)
  unfolding require_active clear_media_clock_wall bump_fetch_cancel
  pause c = elim (require_active c) [
    | err e ↦ (err e, c)
    | ok _ ↦
        let d = clear_media_clock_wall (record c { is_paused = true }) in
        let cancels =
          not d.pause_policy.schedule_while_paused && d.pause_policy.cancel_inflight_on_pause in
        let d' = if cancels then bump_fetch_cancel d else d in
        (ok tt, record d' { state = PlaybackState.paused })
  ]

  unfoldable pub set_pause_policy : PausePolicy → Session R S → Session R S
  set_pause_policy policy c = record c { pause_policy = policy }

  unfoldable pub resume : Session R S → Reply (Session R S)
  unfolding require_active clear_media_clock_wall
  resume c = elim (require_active c) [
    | err e ↦ (err e, c)
    | ok _ ↦
        let d = clear_media_clock_wall (record c { is_paused = false }) in
        (ok tt, record d { state = PlaybackState.buffering })
  ]

  -- `seek` in an active session: a new target and generation, no delivered media, the clock at the
  -- target.
  unfoldable pub reposition : ℕ → Session R S → Session R S
  unfolding reset_track_delivered_ends set_media_clock
  reposition t c =
      let d =
        reset_track_delivered_ends
          (record c { seek_target = some t; seek_generation = (c.seek_generation + 1) % 2 ^ 64 }) in
      let e =
        set_media_clock (some t)
          (record d { buffer_was_healthy = false; has_started_playing = false }) in
      record e { state = PlaybackState.seeking }

  unfoldable pub seek : ℕ → Session R S → Reply (Session R S)
  unfolding require_active
  seek t c = elim (require_active c) [ err e ↦ (err e, c) | ok _ ↦ (ok tt, reposition t c) ]

  unfoldable pub interrupt_streams_from_playhead : PlaybackState → Session R S → Session R S
  unfolding reset_track_delivered_ends set_media_clock
  interrupt_streams_from_playhead s c =
      let resume_at = unwrap_or c.playhead 0 in
      let d = reset_track_delivered_ends (record c {
        seek_target = some resume_at;
        seek_generation = (c.seek_generation + 1) % 2 ^ 64;
      }) in
      let e =
        set_media_clock (some resume_at)
          (record d { buffer_was_healthy = false; has_started_playing = false }) in
      record e { state = s }

  unfoldable pub set_track_selection : S → Session R S → Reply (Session R S)
  unfolding require_active
  set_track_selection selection c = elim (require_active c) [
    | err e ↦ (err e, c)
    | ok _ ↦ (
      ok tt,
      interrupt_streams_from_playhead PlaybackState.buffering
          (record c { pending_track_selection = some selection }),
    )
  ]

  unfoldable pub set_quality_constraints : QualityConstraints → Session R S → Reply (Session R S)
  unfolding require_active
  set_quality_constraints constraints c = elim (require_active c) [
    | err e ↦ (err e, c)
    | ok _ ↦
        let d = record c { quality_constraints = constraints } in
        (
          ok tt,
          if ladder_filter_changed c.quality_constraints constraints
              then interrupt_streams_from_playhead PlaybackState.buffering d
              else d,
        )
  ]

  unfoldable pub set_quality_for : ℕ → Session R S → Reply (Session R S)
  unfolding set_quality_constraints
  set_quality_for quality_index c =
      set_quality_constraints
        (record (c.quality_constraints) {
          auto_switch = false;
          fixed_quality_index = some quality_index;
        })
        c

  unfoldable pub set_auto_switch_bitrate : Bool → Session R S → Reply (Session R S)
  unfolding set_quality_constraints
  set_auto_switch_bitrate enabled c =
      set_quality_constraints (record (c.quality_constraints) { auto_switch = enabled }) c

  unfoldable pub stop : Session R S → Reply (Session R S)
  unfolding clear_media_clock_wall
  stop c =
      if not c.is_started
      then (err PlaybackControlError.not_active, c)
      else let d = clear_media_clock_wall (record c { is_stopped = true; is_paused = false }) in
        (ok tt, record d { state = PlaybackState.ended })

  unfoldable pub take_seek_target : Session R S → Option ℕ × Session R S
  take_seek_target c = (c.seek_target, record c { seek_target = none })

  unfoldable pub take_track_selection : Session R S → Option S × Session R S
  take_track_selection c = (c.pending_track_selection, record c { pending_track_selection = none })

  -- `fetch_cancel_guard` takes the counter; `FetchCancelGuard::is_cancelled` compares it.
  unfoldable pub fetch_cancel_guard : Session R S → ℕ
  fetch_cancel_guard c = c.fetch_cancel

  unfoldable pub is_cancelled : ℕ → Session R S → Bool
  is_cancelled at_start c = not (eq_option (some c.fetch_cancel) (some at_start))
