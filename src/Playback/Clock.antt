-- ===== src/Playback/Clock.antt =====
-- The media clock, the delivered media, the buffer estimate and stall detection
-- (src/playback_control.rs). The wall clock is an argument `now`.
use dashplay_rs.Prelude.{
  ◌==◌, ℕ, zero, suc, ◌+◌, ◌-◌, min, max, Bool, true, false, not, ◌&&◌, ◌||◌, Option, none, some,
  List, [], ◌∷◌, ◌++◌, if◌then◌else◌, Result, ok, err, unwrap_or, is_some, is_none, length,
  get_elem?, set, replicate,
}
use dashplay_rs.Prelude
use dashplay_rs.Float.{F64}
use dashplay_rs.Playback.State.{Session, PlaybackState}
use dashplay_rs.Playback.Rate.{positive, playback_rate}
use dashplay_rs.Playback.Control.{clear_media_clock_wall, set_presentation_time}

-- `ends.iter().filter_map(|p| *p).min()`
unfoldable pub min_delivered_end : List (Option ℕ) → Option ℕ
min_delivered_end [] = none
min_delivered_end (none ∷ ends) = min_delivered_end ends
min_delivered_end (some t ∷ ends) = elim (min_delivered_end ends) [
  | none ↦ some t
  | some u ↦ some (min t u)
]

-- `ends.resize(track_idx + 1, None)` where the list is shorter, then `ends[track_idx] = v`.
unfoldable pub set_end : ℕ → Option ℕ → List (Option ℕ) → List (Option ℕ)
set_end track_idx v ends = set (ends ++ replicate (track_idx + 1 - length ends) none) track_idx v

-- `ends.get(track_idx).copied().flatten()`
unfoldable pub end_of : ℕ → List (Option ℕ) → Option ℕ
end_of track_idx ends = unwrap_or (get_elem? ends track_idx) none

-- The clock after a step, held back to the end of what every track has delivered.
unfoldable pub capped : ℕ → Option ℕ → ℕ
capped t none = t
capped t (some cap) = if Prelude.ltb cap t then cap else t

-- `match ends[track_idx] { Some(prev) => prev.max(end), None => end }`
unfoldable pub later_of : Option ℕ → ℕ → ℕ
later_of none until = until
later_of (some prev) until = max prev until

module _ {R S : Type 0} where
  -- A session that has paused or stopped, or that is not playing, does not advance.
  unfoldable pub is_advancing : Session R S → Bool
  is_advancing c = elim c.state [
    | PlaybackState.playing ↦ not (c.is_paused || c.is_stopped)
    | _ ↦ false
  ]

  -- The first delivery starts the clock.
  unfoldable pub start_clock : Option ℕ → ℕ → Session R S → Bool × Session R S
  unfolding clear_media_clock_wall
  start_clock (some t) start c = (false, c)
  start_clock none start c =
      set_presentation_time (some start)
        (clear_media_clock_wall (record c { media_clock = some start }))

  unfoldable pub record_segment_delivery : ℕ → ℕ → ℕ → Session R S → Bool × Session R S
  record_segment_delivery track_idx start end c =
      let reached = later_of (end_of track_idx c.track_delivered_ends) (max end start) in
      start_clock c.media_clock start (record c {
        track_delivered_ends = set_end track_idx (some reached) c.track_delivered_ends;
      })

  -- The estimate as a Duration: `end.saturating_sub(clock)`, and 0 where either is missing.
  unfoldable pub buffered : ℕ → Session R S → ℕ
  buffered track_idx c = elim (end_of track_idx c.track_delivered_ends) [
    | none ↦ 0
    | some end ↦ elim c.media_clock [ none ↦ 0 | some clock ↦ end - clock ]
  ]

-- A resync starts a missing clock at 0, and drops the wall sample in any case.
unfoldable pub place_clock : {R S : Type 0} → Option ℕ → Session R S → Session R S
unfolding clear_media_clock_wall set_presentation_time
place_clock none c =
    (set_presentation_time (some 0) (clear_media_clock_wall (record c { media_clock = some 0 }))).1
place_clock (some t) c = clear_media_clock_wall c

is_buffering : PlaybackState → Bool
is_buffering PlaybackState.buffering = true
is_buffering _ = false

-- The states in which `update_stall_state` looks at the buffer.
watches_buffer : PlaybackState → Bool
watches_buffer PlaybackState.buffering = true
watches_buffer PlaybackState.playing = true
watches_buffer _ = false

-- `on_media_delivered` passes over the states `Seeking`, `Ended` and `Error`.
takes_media : PlaybackState → Bool
takes_media PlaybackState.seeking = false
takes_media PlaybackState.ended = false
takes_media PlaybackState.error = false
takes_media _ = true

-- `STALL_HEALTHY_BUFFER_S`
abbrev pub stall_healthy_buffer_s : (fl : F64) → fl.Value
stall_healthy_buffer_s fl = fl.literal 4 1

module _ (fl : F64) {S : Type 0} where
  open fl use {Value, literal, ltb, leb, mul, as_secs, from_secs}

  unfoldable pub estimated_buffer_s : ℕ → Session Value S → Value
  unfolding end_of
  estimated_buffer_s track_idx c = elim (end_of track_idx c.track_delivered_ends) [
    | none ↦ literal 0 1
    | some end ↦ elim c.media_clock [ none ↦ literal 0 1 | some clock ↦ as_secs (end - clock) ]
  ]

  -- `set_presentation_time` of a step that moved the clock: the flag is `playhead_changed`.
  unfoldable pub moved : Session Value S → ℕ → ℕ → Bool × Session Value S
  unfolding set_presentation_time
  moved c clock new_clock =
      if new_clock == clock
      then (false, c)
      else set_presentation_time (some new_clock) (record c { media_clock = some new_clock })

  -- The clock after a step of the Duration `dt`; where its conversion panics, the rest of the
  -- method does not run, and the session stays as it is.
  unfoldable pub advance_by : Session Value S → ℕ → Option ℕ → Bool × Session Value S
  unfolding moved capped
  advance_by d clock none = (false, d)
  advance_by d clock (some dt) =
      moved d clock (capped (clock + dt) (min_delivered_end d.track_delivered_ends))

  -- From the second sample of the wall clock on: advance by the time passed times the rate.
  unfoldable pub advance_from : ℕ → ℕ → Session Value S → ℕ → Bool × Session Value S
  unfolding advance_by
  advance_from clock now c prev_wall =
      let rate = playback_rate fl c in
      let usable = if positive fl rate then rate else literal 1 1 in
      let dt_s = mul (as_secs (now - prev_wall)) usable in
      let d = record c { media_clock_wall = some now } in
      if leb dt_s (literal 0 1) then (false, d) else advance_by d clock (from_secs dt_s)

  -- Without a clock nothing moves; without a wall sample this is the first.
  unfoldable pub advance_sampled :
      Option ℕ → Option ℕ → ℕ → Session Value S → Bool × Session Value S
  unfolding advance_from
  advance_sampled none wall now c = (false, c)
  advance_sampled (some clock) none now c = (false, record c { media_clock_wall = some now })
  advance_sampled (some clock) (some prev_wall) now c = advance_from clock now c prev_wall

  unfoldable pub advance_media_clock : ℕ → Session Value S → Bool × Session Value S
  unfolding is_advancing clear_media_clock_wall advance_sampled
  advance_media_clock now c =
      if is_advancing c
      then advance_sampled c.media_clock c.media_clock_wall now c
      else (false, clear_media_clock_wall c)

  -- The delivered end that the reported buffer needs; where its conversion panics, the ends are not
  -- written.
  unfoldable pub end_needed : ℕ → ℕ → Option ℕ → Session Value S → Session Value S
  end_needed track_idx clock none d = d
  end_needed track_idx clock (some held) d = record d {
    track_delivered_ends = set_end track_idx (some (clock + held)) d.track_delivered_ends;
  }

  -- The consumer reports the buffer that it holds.
  unfoldable pub resync_media_clock_from_buffer : ℕ → Value → Session Value S → Session Value S
  unfolding end_needed
  resync_media_clock_from_buffer track_idx buffer_s c =
      let held = if positive fl buffer_s then buffer_s else literal 0 1 in
      end_needed track_idx (unwrap_or c.media_clock 0) (from_secs held)
        (place_clock c.media_clock c)

  -- A stall is seen once after the buffer has been healthy; recovery wants `minBufferTime`.
  unfoldable pub stall_or_recover : Value → Session Value S → Session Value S
  unfolding clear_media_clock_wall is_buffering
  stall_or_recover buffer_s c =
      let empty = leb buffer_s (literal 0 1) in
      let swapped = if empty then record c { buffer_was_healthy = false } else c in
      if empty && c.buffer_was_healthy
      then record (clear_media_clock_wall swapped) { state = PlaybackState.buffering }
      else if is_buffering c.state && leb c.min_buffer_s buffer_s
      then record swapped { has_started_playing = true; state = PlaybackState.playing }
      else swapped

  unfoldable pub update_stall_state : Value → Session Value S → Session Value S
  unfolding stall_or_recover watches_buffer
  update_stall_state buffer_s c =
      if c.is_paused || c.is_stopped || not (watches_buffer c.state)
      then c
      else stall_or_recover buffer_s (
          if leb (stall_healthy_buffer_s fl) buffer_s
          then record c { buffer_was_healthy = true }
          else c)

  -- The first media after a start or a seek begins playback.
  unfoldable pub begin_playing : Value → Session Value S → Session Value S
  begin_playing buffer_s c =
      let d = record c { has_started_playing = true; state = PlaybackState.playing } in
      if leb (stall_healthy_buffer_s fl) buffer_s then record d { buffer_was_healthy = true } else d

  unfoldable pub on_media_delivered : ℕ → Session Value S → Session Value S
  unfolding takes_media
  on_media_delivered track_idx c =
      let buffer_s = estimated_buffer_s track_idx c in
      if c.is_paused || c.is_stopped || not (takes_media c.state)
      then c
      else if not c.has_started_playing && ltb (literal 0 1) buffer_s
      then begin_playing buffer_s c
      else update_stall_state buffer_s c
