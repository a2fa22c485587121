-- ===== src/Playback/Commands.antt =====
-- What the commands of the controller promise: refusals, cancellation, repositioning.
use dashplay_rs.Prelude.{
  ℕ, ◌-◌, ◌^◌, ◌<◌, ◌≡◌, refl, ◌≢◌, ◌⊎◌, inl, inr, Bool, true, false, not, ◌&&◌, Option, none, some,
  arith, ok, err, if◌then◌else◌, unwrap_or, Bool-cases,
}
use dashplay_rs.Float.{F64}
use dashplay_rs.Abr.Constraints.{QualityConstraints, ladder_filter_changed, eq_option, eq_bool}
use dashplay_rs.Playback.State.{Session, PlaybackState, PlaybackControlError}
use dashplay_rs.Playback.Control.{
  require_active, pause, resume, seek, set_track_selection, set_quality_constraints,
  set_quality_for, set_auto_switch_bitrate, take_seek_target, take_track_selection,
  fetch_cancel_guard, is_cancelled,
}
use dashplay_rs.Playback.Rate.{set_playback_rate}
use dashplay_rs.Playback.Clock.{buffered, end_of}
use dashplay_rs.Playback.Effects.{reposition_lem, interrupt_streams_from_playhead_lem}

eq_option_refl : (a : Option ℕ) → eq_option a a ≡ true
eq_option_refl none = refl
eq_option_refl (some a) = ground arith

eq_bool_refl : (b : Bool) → eq_bool b b ≡ true
eq_bool_refl true = refl
eq_bool_refl false = refl

-- The error of a session that has not started, or has stopped.
abbrev pub refusal : {R S : Type 0} → Session R S → PlaybackControlError
refusal c = if c.is_started then PlaybackControlError.stopped else PlaybackControlError.not_active

module _ (fl : F64) {S : Type 0} (c : Session fl.Value S) where
  -- A session that has not started, or that has stopped, refuses pause, resume, seek, a track
  -- selection, quality constraints and a playback rate with `NotActive` or `Stopped` in that order
  -- of tests, and no command that is refused changes the session.
  pub commands_refused :
      (t : ℕ) (s : S) (q : QualityConstraints) (r : Option fl.Value)
      → (c.is_started ≡ false) ⊎ (c.is_stopped ≡ true)
      → (pause c ≡ (err (refusal c), c))
        × (resume c ≡ (err (refusal c), c))
        × (seek t c ≡ (err (refusal c), c))
        × (set_track_selection s c ≡ (err (refusal c), c))
        × (set_quality_constraints q c ≡ (err (refusal c), c))
        × (set_playback_rate fl r c ≡ (err (refusal c), c))
  unfolding pause resume seek set_track_selection set_quality_constraints set_playback_rate
  commands_refused t s q r h =
      (ground arith, ground arith, ground arith, ground arith, ground arith, ground arith)

module _ {R S : Type 0} (c : Session R S) (active : require_active c ≡ ok tt) where
  -- Pausing an active session cancels the fetches whose guard was taken before, exactly when the
  -- policy stops scheduling while paused and asks for the cancellation; the counter that the guards
  -- compare must be below its last value, where it stays.
  pub pause-is_cancelled :
      c.fetch_cancel < 2 ^ 64 - 1
      → is_cancelled (fetch_cancel_guard c) (pause c).1
        ≡ (not c.pause_policy.schedule_while_paused && c.pause_policy.cancel_inflight_on_pause)
  unfolding pause is_cancelled fetch_cancel_guard
  pause-is_cancelled room = ground arith

  -- After a seek of an active session the pending target is the time that was asked for, the
  -- playhead and the media clock show it, the state is `Seeking`, no track has media buffered, and
  -- the generation is another one, so a stream that compares generations sees the seek.
  pub seek-takes :
      (t i : ℕ)
      → let d = (seek t c).1 in
        ((take_seek_target d).0 ≡ some t)
        × (d.playhead ≡ some t)
        × (d.media_clock ≡ some t)
        × (d.state ≡ PlaybackState.seeking)
        × (buffered i d ≡ 0)
        × (c.seek_generation < 2 ^ 64 → d.seek_generation ≢ c.seek_generation)
  unfolding seek take_seek_target buffered end_of
  seek-takes t i =
      rw (active, seek, reposition_lem t c) (refl, refl, refl, refl, refl, λ h e. omega arith)

  -- A track selection in an active session is handed over once, and interrupts the streams at the
  -- playhead, or at 0 before there is one: that is the pending target, where the media clock stands,
  -- no track has media buffered, and the generation is another one, so a stream that compares
  -- generations sees the interruption. The state becomes `Buffering` also in a session that is
  -- paused, and it stays paused.
  pub set_track_selection-interrupts :
      (s : S) (i : ℕ)
      → let d = (set_track_selection s c).1 in
        ((take_track_selection d).0 ≡ some s)
        × ((take_track_selection (take_track_selection d).1).0 ≡ none)
        × ((take_seek_target d).0 ≡ some (unwrap_or c.playhead 0))
        × (d.playhead ≡ some (unwrap_or c.playhead 0))
        × (d.media_clock ≡ some (unwrap_or c.playhead 0))
        × (buffered i d ≡ 0)
        × (c.seek_generation < 2 ^ 64 → d.seek_generation ≢ c.seek_generation)
        × (d.state ≡ PlaybackState.buffering)
        × (d.is_paused ≡ c.is_paused)
  unfolding set_track_selection take_seek_target take_track_selection buffered end_of
  set_track_selection-interrupts s i =
      rw
        (
          active,
          set_track_selection,
          interrupt_streams_from_playhead_lem PlaybackState.buffering
              (record c { pending_track_selection = some s }),
        )
        (refl, refl, refl, refl, refl, refl, (λ h e. omega arith), refl, refl)

  -- New quality constraints are stored. If they filter the ladder otherwise the streams are
  -- interrupted at the playhead, or at 0 before there is one; if not, the rest of the session stays.
  pub set_quality_constraints-interrupts :
      (q : QualityConstraints)
      → let d = (set_quality_constraints q c).1 in
        (d.quality_constraints ≡ q)
        × (ladder_filter_changed c.quality_constraints q ≡ true
            → ((take_seek_target d).0 ≡ some (unwrap_or c.playhead 0))
              × (d.state ≡ PlaybackState.buffering))
        × (ladder_filter_changed c.quality_constraints q ≡ false
            → d ≡ record c { quality_constraints = q })
  unfolding set_quality_constraints take_seek_target
  set_quality_constraints-interrupts q =
      let e =
        interrupt_streams_from_playhead_lem PlaybackState.buffering
          (record c { quality_constraints = q }) in
      elim (Bool-cases (ladder_filter_changed c.quality_constraints q)) [
        | inl h ↦ rw (active, set_quality_constraints, h, e) (refl, (λ _. (refl, refl)), λ f. cc)
        | inr h ↦ rw (active, set_quality_constraints, h) (refl, (λ f. cc), λ _. refl)
      ]

  -- Pinning a quality and switching the automatic choice store the setting and touch nothing else,
  -- so that neither interrupts the streams.
  pub set_quality_for-quiet :
      (i : ℕ) (b : Bool)
      → ((set_quality_for i c).1 ≡ record c {
        quality_constraints = record (c.quality_constraints) {
          auto_switch = false;
          fixed_quality_index = some i;
        };
      })
        × ((set_auto_switch_bitrate b c).1
            ≡ record c { quality_constraints = record (c.quality_constraints) { auto_switch = b } })
  unfolding set_quality_for set_auto_switch_bitrate ladder_filter_changed
  set_quality_for-quiet i b = ground (
    arith,
    eq_option_refl c.quality_constraints.min_bitrate_bps,
    eq_option_refl c.quality_constraints.max_bitrate_bps,
    eq_bool_refl c.quality_constraints.data_saver,
  )
