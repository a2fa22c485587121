-- ===== src/Playback/Effects.antt =====
-- What the shared parts of the commands do, in one record update each.
use dashplay_rs.Prelude.{
  unwrap_or, ℕ, ◌+◌, ◌%◌, ◌^◌, ◌≡◌, refl, ap, inl, inr, true, false, Option, none, some, [], arith,
  Bool-cases,
}
use dashplay_rs.Abr.Constraints.{eq_option}
use dashplay_rs.Playback.State.{Session, PlaybackState}
use dashplay_rs.Playback.Control.{
  set_presentation_time, set_media_clock, reposition, interrupt_streams_from_playhead,
  clear_media_clock_wall,
}

eq_option-true : (a b : Option ℕ) → eq_option a b ≡ true → a ≡ b
eq_option-true none none h = refl
eq_option-true none (some b) h = ground arith
eq_option-true (some a) none h = ground arith
eq_option-true (some a) (some b) h = ground arith

module _ {R S : Type 0} where
  pub set_presentation_time_lem :
      (t : Option ℕ) (c : Session R S) → (set_presentation_time t c).1 ≡ record c { playhead = t }
  unfolding set_presentation_time
  set_presentation_time_lem t c = elim (Bool-cases (eq_option c.playhead t)) [
    | inl e ↦ rw e (ap (λ p. record c { playhead = p }) (eq_option-true c.playhead t e))
    | inr e ↦ rw e
  ]

  pub set_media_clock_lem :
      (t : Option ℕ) (c : Session R S)
      → set_media_clock t c ≡ record c { media_clock = t; media_clock_wall = none; playhead = t }
  unfolding set_media_clock clear_media_clock_wall
  set_media_clock_lem t c = set_presentation_time_lem t _

  pub interrupt_streams_from_playhead_lem :
      (s : PlaybackState) (c : Session R S)
      → let t = unwrap_or c.playhead 0 in
        interrupt_streams_from_playhead s c ≡ record c {
          state = s;
          playhead = some t;
          media_clock = some t;
          media_clock_wall = none;
          seek_target = some t;
          seek_generation = (c.seek_generation + 1) % 2 ^ 64;
          track_delivered_ends = [];
          buffer_was_healthy = false;
          has_started_playing = false;
        }
  unfolding interrupt_streams_from_playhead
  interrupt_streams_from_playhead_lem s c =
      let t = unwrap_or c.playhead 0 in
      ap (λ (d : Session R S). record d { state = s })
        (set_media_clock_lem (some t) (record c {
          seek_target = some t;
          seek_generation = (c.seek_generation + 1) % 2 ^ 64;
          track_delivered_ends = [];
          buffer_was_healthy = false;
          has_started_playing = false;
        }))

  pub reposition_lem :
      (t : ℕ) (c : Session R S)
      → reposition t c ≡ record c {
        state = PlaybackState.seeking;
        playhead = some t;
        media_clock = some t;
        media_clock_wall = none;
        seek_target = some t;
        seek_generation = (c.seek_generation + 1) % 2 ^ 64;
        track_delivered_ends = [];
        buffer_was_healthy = false;
        has_started_playing = false;
      }
  unfolding reposition
  reposition_lem t c =
      ap (λ (d : Session R S). record d { state = PlaybackState.seeking })
        (set_media_clock_lem (some t) (record c {
          seek_target = some t;
          seek_generation = (c.seek_generation + 1) % 2 ^ 64;
          track_delivered_ends = [];
          buffer_was_healthy = false;
          has_started_playing = false;
        }))
