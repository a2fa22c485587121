-- ===== src/Playback/Consistency/Media.antt =====
-- The media clock, delivery, stall detection and the latency control, against the invariant
-- (src/playback_control.rs).
use dashplay_rs.Prelude.{
  ℕ, ◌≡◌, refl, inl, inr, Bool, true, false, Option, none, some, arith, Bool-cases, if_rule, ◌==◌,
}
use dashplay_rs.Float.{F64}
use dashplay_rs.Playback.Latency.{LatencyControlUpdate, LatencyPolicy, LiveClock}
use dashplay_rs.Playback.State.{Session}
use dashplay_rs.Playback.Effects.{set_presentation_time_lem}
use dashplay_rs.Playback.Clock
use dashplay_rs.Playback.Catchup
use dashplay_rs.Playback.Consistency.Rules.{IsConsistent, transfer, unchanged_but_wall}

module _ {R S : Type 0} where
  start_clock-IsConsistent :
      (t : Option ℕ) (start : ℕ) (c : Session R S)
      → IsConsistent c
      → IsConsistent (Clock.start_clock t start c).1
  unfolding Clock.start_clock
  start_clock-IsConsistent none start c v =
      rw set_presentation_time_lem (unchanged_but_wall refl refl refl refl refl refl v)
  start_clock-IsConsistent (some t) start c v = v

  pub record_segment_delivery-IsConsistent :
      (i start end : ℕ) (c : Session R S)
      → IsConsistent c
      → IsConsistent (Clock.record_segment_delivery i start end c).1
  unfolding Clock.record_segment_delivery
  record_segment_delivery-IsConsistent i start end c v =
      start_clock-IsConsistent c.media_clock start _
        (transfer refl refl refl refl refl v.shows_clock v)

module _ (fl : F64) {S : Type 0} where
  open fl use {Value}

  moved-IsConsistent :
      (c : Session Value S) (t u : ℕ) → IsConsistent c → IsConsistent (Clock.moved fl c t u).1
  unfolding Clock.moved
  moved-IsConsistent c t u v = elim (Bool-cases (u == t)) [
    | inl e ↦ rw e v
    | inr e ↦ rw e (rw set_presentation_time_lem (transfer refl refl refl refl refl refl v))
  ]

  apply_update-IsConsistent :
      (u : LatencyControlUpdate Value) (c : Session Value S)
      → IsConsistent c
      → IsConsistent (Catchup.apply_update fl u c).1
  unfolding Catchup.apply_update
  apply_update-IsConsistent u c v = ground arith

  refresh_with-IsConsistent :
      (now : ℕ) (p : Option (LatencyPolicy Value)) (l : Option LiveClock) (t : Option ℕ)
      (c : Session Value S)
      → IsConsistent c
      → IsConsistent (Catchup.refresh_with fl now p l t c).1
  unfolding Catchup.refresh_with
  refresh_with-IsConsistent now none l t c v = v
  refresh_with-IsConsistent now (some p) none t c v = v
  refresh_with-IsConsistent now (some p) (some l) none c v = v
  refresh_with-IsConsistent now (some p) (some l) (some t) c v = apply_update-IsConsistent _ c v

  pub refresh-IsConsistent :
      (now : ℕ) (c : Session Value S)
      → IsConsistent c
      → IsConsistent (Catchup.refresh_latency_control fl now c).1
  unfolding Catchup.refresh_latency_control
  refresh-IsConsistent now c v =
      if_rule (λ (r : Option (LatencyControlUpdate Value) × Session Value S). IsConsistent r.1) _ v
        (refresh_with-IsConsistent now c.latency_policy c.live_clock c.playhead c v)

  advance_by-IsConsistent :
      (c : Session Value S) (t : ℕ) (dt : Option ℕ)
      → IsConsistent c
      → IsConsistent (Clock.advance_by fl c t dt).1
  unfolding Clock.advance_by
  advance_by-IsConsistent c t none v = v
  advance_by-IsConsistent c t (some dt) v = moved-IsConsistent c t _ v

  -- The wall sample is taken only while the session plays.
  advance_sampled-IsConsistent :
      (t w : Option ℕ) (now : ℕ) (c : Session Value S)
      → Clock.is_advancing c ≡ true
      → IsConsistent c
      → IsConsistent (Clock.advance_sampled fl t w now c).1
  unfolding Clock.advance_sampled Clock.is_advancing
  advance_sampled-IsConsistent none w now c h v = v
  advance_sampled-IsConsistent (some t) none now c h v = ground arith
  advance_sampled-IsConsistent (some t) (some w) now c h v =
      let v' : IsConsistent (record c { media_clock_wall = some now }) = ground arith in
      if_rule (λ (r : Bool × Session Value S). IsConsistent r.1) _ v'
        (advance_by-IsConsistent _ t _ v')

  pub advance-IsConsistent :
      (now : ℕ) (c : Session Value S)
      → IsConsistent c
      → IsConsistent (Clock.advance_media_clock fl now c).1
  unfolding Clock.advance_media_clock
  advance-IsConsistent now c v = elim (Bool-cases (Clock.is_advancing c)) [
    | inl e ↦ rw e (advance_sampled-IsConsistent c.media_clock c.media_clock_wall now c e v)
    | inr e ↦ rw e (unchanged_but_wall refl refl refl refl refl v.shows_clock v)
  ]

  place_clock-IsConsistent :
      (t : Option ℕ) (c : Session Value S) → IsConsistent c → IsConsistent (Clock.place_clock t c)
  unfolding Clock.place_clock
  place_clock-IsConsistent none c v =
      rw set_presentation_time_lem (unchanged_but_wall refl refl refl refl refl refl v)
  place_clock-IsConsistent (some t) c v =
      unchanged_but_wall refl refl refl refl refl v.shows_clock v

  end_needed-IsConsistent :
      (i t : ℕ) (held : Option ℕ) (c : Session Value S)
      → IsConsistent c
      → IsConsistent (Clock.end_needed fl i t held c)
  unfolding Clock.end_needed
  end_needed-IsConsistent i t none c v = v
  end_needed-IsConsistent i t (some held) c v = transfer refl refl refl refl refl v.shows_clock v

  pub resync-IsConsistent :
      (i : ℕ) (b : Value) (c : Session Value S)
      → IsConsistent c
      → IsConsistent (Clock.resync_media_clock_from_buffer fl i b c)
  unfolding Clock.resync_media_clock_from_buffer
  resync-IsConsistent i b c v =
      end_needed-IsConsistent i _ _ _ (place_clock-IsConsistent c.media_clock c v)

  begin_playing-IsConsistent :
      (b : Value) (c : Session Value S)
      → c.is_paused ≡ false
      → c.is_stopped ≡ false
      → IsConsistent c
      → IsConsistent (Clock.begin_playing fl b c)
  unfolding Clock.begin_playing
  begin_playing-IsConsistent b c p s v = ground arith

  pub stall-IsConsistent :
      (b : Value) (c : Session Value S)
      → IsConsistent c
      → IsConsistent (Clock.update_stall_state fl b c)
  unfolding Clock.update_stall_state
  stall-IsConsistent b c v = ground arith

  pub plays-IsConsistent :
      (i : ℕ) (c : Session Value S)
      → IsConsistent c
      → IsConsistent (Clock.on_media_delivered fl i c)
  unfolding Clock.on_media_delivered
  plays-IsConsistent i c v =
      let b = Clock.estimated_buffer_s fl i c in
      ground (arith, begin_playing-IsConsistent b c, stall-IsConsistent b c)
