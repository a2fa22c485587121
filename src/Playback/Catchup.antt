-- ===== src/Playback/Catchup.antt =====
-- `refresh_latency_control` (src/playback_control.rs): the suggested rate and the seek to the
-- target when the latency has passed its upper bound.
use dashplay_rs.Prelude.{ℕ, Bool, true, false, ◌||◌, Option, none, some, if◌then◌else◌, is_some}
use dashplay_rs.Float.{F64}
use dashplay_rs.Playback.Latency.{LatencyPolicy, LiveClock, LatencyControlUpdate, evaluate}
use dashplay_rs.Playback.State.{Session, PlaybackState}

is_seeking : PlaybackState → Bool
is_seeking PlaybackState.seeking = true
is_seeking _ = false

module _ (fl : F64) {S : Type 0} where
  open fl use {Value}

  -- The seek is offered once, until the latency has been back below its bound.
  arm :
      LatencyControlUpdate Value
      → Session Value S
      → Option (LatencyControlUpdate Value) × Session Value S
  arm update c =
      if is_some update.seek_target
      then (
        some (if c.latency_seek_armed then update else record update { seek_target = none }),
        record c { latency_seek_armed = false },
      )
      else (some update, record c { latency_seek_armed = true })

  unfoldable pub apply_update :
      LatencyControlUpdate Value
      → Session Value S
      → Option (LatencyControlUpdate Value) × Session Value S
  unfolding arm
  apply_update update c =
      let d = record c { live_latency = some update.latency } in
      arm update (if update.rate_changed then record d { suggested_rate = update.rate } else d)

  -- Without a policy, a live clock or a playhead nothing is evaluated.
  unfoldable pub refresh_with :
      ℕ
      → Option (LatencyPolicy Value)
      → Option LiveClock
      → Option ℕ
      → Session Value S
      → Option (LatencyControlUpdate Value) × Session Value S
  unfolding apply_update
  refresh_with now (some policy) (some clock) (some t) c =
      apply_update (evaluate fl clock t policy c.suggested_rate now) c
  refresh_with now _ _ _ c = (none, c)

  unfoldable pub refresh_latency_control :
      ℕ → Session Value S → Option (LatencyControlUpdate Value) × Session Value S
  unfolding refresh_with is_seeking
  refresh_latency_control now c =
      if c.is_paused || c.is_stopped || is_seeking c.state
      then (none, c)
      else refresh_with now c.latency_policy c.live_clock c.playhead c
