-- ===== src/Playback/Stall.antt =====
-- Stall detection and recovery (src/playback_control.rs).
use dashplay_rs.Prelude.{
  ℕ, zero, suc, ◌-◌, max, ◌≡◌, refl, sym, ap, ◌∙◌, subst, ◌⊎◌, true, false, ◌||◌, some, [], ok,
  arith,
}
use dashplay_rs.Float.{F64}
use dashplay_rs.Playback.State.{Session, PlaybackState}
use dashplay_rs.Playback.Control.{require_active, seek, set_state}
use dashplay_rs.Playback.Effects.{reposition_lem}
use dashplay_rs.Playback.Ends.{end_of-set_end_self}
use dashplay_rs.Playback.Delivery.{estimated_at}
use dashplay_rs.Playback.Clock.{
  update_stall_state, on_media_delivered, begin_playing, estimated_buffer_s, later_of, end_of,
  set_end, record_segment_delivery, start_clock,
}

-- A track of an empty list has delivered nothing.
end_of-nil : (i u : ℕ) → later_of (end_of i []) u ≡ u
unfolding later_of end_of
end_of-nil zero u = refl
end_of-nil (suc i) u = refl

-- A session that has not stopped.
not_stopped : {R S : Type 0} → (c : Session R S) → require_active c ≡ ok tt → c.is_stopped ≡ false
unfolding require_active
not_stopped c h = ground arith

module _ (fl : F64) {S : Type 0} where
  open fl use {Value, literal, ltb, leb, as_secs}

  -- What a look at a buffer of `b` seconds may do to the lifecycle state.
  abbrev pub StallStep : Value → Session Value S → Session Value S → Type 0
  StallStep b c d =
      (d.state ≡ c.state)
      ⊎ ((c.state ≡ PlaybackState.playing)
          × (d.state ≡ PlaybackState.buffering)
          × (leb b (literal 0 1) ≡ true)
          × (d.buffer_was_healthy ≡ false))
      ⊎ ((c.state ≡ PlaybackState.buffering)
          × (d.state ≡ PlaybackState.playing)
          × (leb c.min_buffer_s b ≡ true)
          × (d.has_started_playing ≡ true))

  -- Looking at the buffer changes the lifecycle state in two ways only: from `Playing` to
  -- `Buffering` when the buffer is empty, and then the next stall waits for a healthy buffer; and
  -- from `Buffering` to `Playing` when the buffer has reached `minBufferTime`. A session that is
  -- paused or stopped is not touched at all.
  pub update_stall_state-StallStep :
      (b : Value) (c : Session Value S)
      → StallStep b c (update_stall_state fl b c)
        × ((c.is_paused || c.is_stopped) ≡ true → update_stall_state fl b c ≡ c)
  unfolding update_stall_state
  update_stall_state-StallStep b c = (ground arith, ground arith)

  begins :
      (i : ℕ) (c : Session Value S)
      → c.is_paused ≡ false
      → c.is_stopped ≡ false
      → c.state ≡ PlaybackState.buffering
      → c.has_started_playing ≡ false
      → ltb (literal 0 1) (estimated_buffer_s fl i c) ≡ true
      → ((on_media_delivered fl i c).state ≡ PlaybackState.playing)
        × ((on_media_delivered fl i c).has_started_playing ≡ true)
  unfolding on_media_delivered begin_playing
  begins i c p s st h l = (ground arith, ground arith)

  -- A segment that is delivered to a session without media begins playback if its end is ahead.
  first_delivery :
      (t i start end : ℕ) (c : Session Value S)
      → c.is_paused ≡ false
      → c.is_stopped ≡ false
      → c.state ≡ PlaybackState.buffering
      → c.has_started_playing ≡ false
      → c.media_clock ≡ some t
      → c.track_delivered_ends ≡ []
      → ltb (literal 0 1) (as_secs (max start end - t)) ≡ true
      → let d = on_media_delivered fl i (record_segment_delivery i start end c).1 in
        (d.state ≡ PlaybackState.playing) × (d.has_started_playing ≡ true)
  unfolding record_segment_delivery
  first_delivery t i start end c p s st h at empty l =
      let reach = later_of (end_of i c.track_delivered_ends) (max end start) in
      let d = record c { track_delivered_ends = set_end i (some reach) c.track_delivered_ends } in
      let is : reach ≡ max start end =
        ap (λ ends. later_of (end_of i ends) (max end start)) empty
        ∙ end_of-nil i (max end start)
        ∙ omega arith in
      let estimate =
        estimated_at fl i t reach d (end_of-set_end_self i (some reach) c.track_delivered_ends) at
        ∙ ap (λ e. as_secs (e - t)) is in
      subst
        (λ o.
          ((on_media_delivered fl i (start_clock o start d).1).state ≡ PlaybackState.playing)
          × ((on_media_delivered fl i (start_clock o start d).1).has_started_playing ≡ true))
        (sym at) (unfold start_clock in begins i d p s st h (ap (ltb (literal 0 1)) estimate ∙ l))

  seeking_waits :
      (i : ℕ) (c : Session Value S)
      → c.state ≡ PlaybackState.seeking
      → on_media_delivered fl i c ≡ c
  unfolding on_media_delivered
  seeking_waits i c st = ground arith

  -- After a seek to `t` in an active session that is not paused, media that are delivered while it
  -- is still `Seeking` begin nothing. Once the state has been set to `Buffering`, the first segment
  -- of a track that ends ahead of `t`, by a time that is more than 0 in seconds, begins playback,
  -- whatever `minBufferTime` says.
  pub on_media_delivered-seek :
      (t i start end : ℕ) (c : Session Value S)
      → require_active c ≡ ok tt
      → c.is_paused ≡ false
      → ltb (literal 0 1) (as_secs (max start end - t)) ≡ true
      → let sought = (seek t c).1 in
        let delivered : Session Value S → Session Value S =
          λ d. on_media_delivered fl i (record_segment_delivery i start end d).1 in
        ((delivered sought).state ≡ PlaybackState.seeking)
        × ((delivered sought).has_started_playing ≡ false)
        × ((delivered (set_state PlaybackState.buffering sought)).state ≡ PlaybackState.playing)
        × ((delivered (set_state PlaybackState.buffering sought)).has_started_playing ≡ true)
  unfolding seek set_state record_segment_delivery start_clock
  on_media_delivered-seek t i start end c active p l =
      let s = not_stopped c active in
      let to = reposition_lem t c in
      let waits = λ (d : Session Value S). seeking_waits i d in
      rw (active, seek, to, s, p)
        (
          ap (λ (d : Session Value S). d.state) (waits _ refl),
          ap (λ (d : Session Value S). d.has_started_playing) (waits _ refl),
          (first_delivery t i start end _ refl refl refl refl refl refl l).0,
          (first_delivery t i start end _ refl refl refl refl refl refl l).1,
        )
