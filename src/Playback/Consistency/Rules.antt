-- ===== src/Playback/Consistency/Rules.antt =====
-- The invariant of a session (src/playback_control.rs), and the updates that keep it.
use dashplay_rs.Prelude.{ℕ, ◌≡◌, ◌⊎◌, ◌≢◌, true, false, none, arith}
use dashplay_rs.Playback.State.{Session, PlaybackState}
use dashplay_rs.Playback.Control
use dashplay_rs.Playback.Effects.{reposition_lem, interrupt_streams_from_playhead_lem}

pub record IsConsistent {R S : Type 0} (c : Session R S) : Type 0 where
  pub paused_lives : c.is_paused ≡ true → (c.is_started ≡ true) × (c.is_stopped ≡ false)
  pub stopped_ends :
      c.is_stopped ≡ true → (c.state ≡ PlaybackState.ended) ⊎ (c.state ≡ PlaybackState.error)
  pub paused_waits : c.is_paused ≡ true → c.state ≢ PlaybackState.playing
  pub paused_holds : c.is_paused ≡ true → c.media_clock_wall ≡ none
  pub stopped_holds : c.is_stopped ≡ true → c.media_clock_wall ≡ none
  pub shows_clock : c.playhead ≡ c.media_clock

module _ {R S : Type 0} where
  -- The invariant reads six fields only.
  pub transfer :
      {c d : Session R S}
      → d.is_started ≡ c.is_started
      → d.is_paused ≡ c.is_paused
      → d.is_stopped ≡ c.is_stopped
      → d.state ≡ c.state
      → d.media_clock_wall ≡ c.media_clock_wall
      → d.playhead ≡ d.media_clock
      → IsConsistent c
      → IsConsistent d
  transfer started paused stopped state wall shown v = record {
    paused_lives = λ h. let (a, b) = v.paused_lives (cc) in (cc, cc);
    stopped_ends = λ h. ground (arith, v.stopped_ends (cc));
    paused_waits = λ h e. v.paused_waits (cc) (cc);
    paused_holds = λ h. cc (v.paused_holds (cc));
    stopped_holds = λ h. cc (v.stopped_holds (cc));
    shows_clock = shown;
  }

  -- Clearing the wall sample keeps it too.
  pub unchanged_but_wall :
      {c d : Session R S}
      → d.is_started ≡ c.is_started
      → d.is_paused ≡ c.is_paused
      → d.is_stopped ≡ c.is_stopped
      → d.state ≡ c.state
      → d.media_clock_wall ≡ none
      → d.playhead ≡ d.media_clock
      → IsConsistent c
      → IsConsistent d
  unchanged_but_wall {c} {d} started paused stopped state wall shown v = record {
    paused_lives = λ h. let (a, b) = v.paused_lives (cc) in (cc, cc);
    stopped_ends = λ h. ground (arith, v.stopped_ends (cc));
    paused_waits = λ h e. v.paused_waits (cc) (cc);
    paused_holds = λ h. wall;
    stopped_holds = λ h. wall;
    shows_clock = shown;
  }

  pub reposition-IsConsistent :
      (t : ℕ) (c : Session R S)
      → c.is_stopped ≡ false
      → IsConsistent c
      → IsConsistent (Control.reposition t c)
  reposition-IsConsistent t c live v = rw reposition_lem (ground arith)

  pub interrupt-IsConsistent :
      (s : PlaybackState) (c : Session R S)
      → c.is_stopped ≡ false
      → s ≢ PlaybackState.playing
      → IsConsistent c
      → IsConsistent (Control.interrupt_streams_from_playhead s c)
  interrupt-IsConsistent s c live waits v = rw interrupt_streams_from_playhead_lem (ground arith)
