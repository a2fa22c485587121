-- ===== src/Playback/Consistency/Commands.antt =====
-- The commands that reposition the stream, and the start of a session, against the
-- invariant (src/playback_control.rs).
use dashplay_rs.Prelude.{ℕ, some, arith}
use dashplay_rs.Float.{F64}
use dashplay_rs.Abr.Constraints.{QualityConstraints}
use dashplay_rs.Playback.State.{Session, PlaybackState, new}
use dashplay_rs.Playback.Control
use dashplay_rs.Playback.Effects.{set_media_clock_lem}
use dashplay_rs.Playback.Rate
use dashplay_rs.Playback.Consistency.Rules.{
  IsConsistent, reposition-IsConsistent, interrupt-IsConsistent,
}

module _ {R S : Type 0} where
  pub seek-IsConsistent :
      (t : ℕ) (c : Session R S) → IsConsistent c → IsConsistent (Control.seek t c).1
  unfolding Control.seek
  seek-IsConsistent t c v = ground (arith, reposition-IsConsistent t c)

  pub set_track_selection-IsConsistent :
      (s : S) (c : Session R S) → IsConsistent c → IsConsistent (Control.set_track_selection s c).1
  unfolding Control.set_track_selection
  set_track_selection-IsConsistent s c v = ground (
    arith,
    interrupt-IsConsistent PlaybackState.buffering (record c { pending_track_selection = some s }),
  )

  pub set_quality_constraints-IsConsistent :
      (q : QualityConstraints) (c : Session R S)
      → IsConsistent c
      → IsConsistent (Control.set_quality_constraints q c).1
  unfolding Control.set_quality_constraints
  set_quality_constraints-IsConsistent q c v =
      ground (
        arith,
        interrupt-IsConsistent PlaybackState.buffering (record c { quality_constraints = q }),
      )

module _ (fl : F64) {S : Type 0} where
  open fl use {Value}

  pub new-IsConsistent : IsConsistent (new fl S)
  unfolding new
  new-IsConsistent = ground arith

  pub mark_started-IsConsistent :
      (now : ℕ) (c : Session Value S) → IsConsistent (Rate.mark_started fl now c)
  unfolding Rate.mark_started
  mark_started-IsConsistent now c = rw set_media_clock_lem (ground arith)
