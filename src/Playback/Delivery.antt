-- ===== src/Playback/Delivery.antt =====
-- The media clock against what the tracks have delivered (src/playback_control.rs).
use native.Mathlib.Nat.{le-add_right}
use dashplay_rs.Prelude.{
  ℕ, ◌+◌, ◌-◌, ◌≤◌, max, ◌≡◌, refl, ◌≢◌, ◌∙◌, Bool, false, Option, none, some, arith, if◌then◌else◌,
  ◌==◌, ap, if_rule, subst, sym, unwrap_or,
}
use dashplay_rs.Float.{F64}
use dashplay_rs.Playback.State.{Session}
use dashplay_rs.Playback.Rate.{positive}
use dashplay_rs.Playback.Clock
use dashplay_rs.Playback.Effects.{set_presentation_time_lem}
use dashplay_rs.Playback.Ends.{Covers, capped-Covers, end_of-set_end_self, end_of-set_end_ne}

later_of_max : (o : Option ℕ) (u : ℕ) → Clock.later_of o u ≡ max (unwrap_or o 0) u
unfolding Clock.later_of
later_of_max none u = omega arith
later_of_max (some q) u = refl

module _ {R S : Type 0} where
  start_clock-ends :
      (o : Option ℕ) (s : ℕ) (c : Session R S)
      → (Clock.start_clock o s c).1.track_delivered_ends ≡ c.track_delivered_ends
  unfolding Clock.start_clock
  start_clock-ends none s c = rw set_presentation_time_lem
  start_clock-ends (some t) s c = refl

  start_clock-media_clock :
      (o : Option ℕ) (s : ℕ) (c : Session R S)
      → c.media_clock ≡ o
      → (Clock.start_clock o s c).1.media_clock ≡ some (unwrap_or o s)
  unfolding Clock.start_clock
  start_clock-media_clock none s c h = rw set_presentation_time_lem
  start_clock-media_clock (some t) s c h = h

  start_clock-playhead :
      (s : ℕ) (c : Session R S) → (Clock.start_clock none s c).1.playhead ≡ some s
  unfolding Clock.start_clock
  start_clock-playhead s c = rw set_presentation_time_lem

  start_clock-quiet :
      (t s : ℕ) (c : Session R S) → (Clock.start_clock (some t) s c).1.playhead ≡ c.playhead
  unfolding Clock.start_clock
  start_clock-quiet t s c = refl

  place_clock-ends :
      (o : Option ℕ) (c : Session R S)
      → (Clock.place_clock o c).track_delivered_ends ≡ c.track_delivered_ends
  unfolding Clock.place_clock
  place_clock-ends none c = rw set_presentation_time_lem
  place_clock-ends (some t) c = refl

  place_clock-media_clock :
      (o : Option ℕ) (c : Session R S)
      → c.media_clock ≡ o
      → (Clock.place_clock o c).media_clock ≡ some (unwrap_or o 0)
  unfolding Clock.place_clock
  place_clock-media_clock none c h = rw set_presentation_time_lem
  place_clock-media_clock (some t) c h = h

module _ (fl : F64) {S : Type 0} where
  open fl use {Value}

  pub estimated_at :
      (i t e : ℕ) (c : Session Value S)
      → Clock.end_of i c.track_delivered_ends ≡ some e
      → c.media_clock ≡ some t
      → Clock.estimated_buffer_s fl i c ≡ fl.as_secs (e - t)
  unfolding Clock.estimated_buffer_s Clock.end_of
  estimated_at i t e c is at = ground arith

  -- The clock of `d` stands at or after `t`, within what is delivered, which is as it was.
  abbrev pub MovesOn : ℕ → Session Value S → Session Value S → Type 0
  MovesOn t c d =
      (u : ℕ) × (d.media_clock ≡ some u)
      × (t ≤ u)
      × Covers d.track_delivered_ends u
      × (d.track_delivered_ends ≡ c.track_delivered_ends)

  moved-MovesOn :
      (c : Session Value S) (t u : ℕ)
      → c.media_clock ≡ some t
      → Covers c.track_delivered_ends t
      → t ≤ u
      → Covers c.track_delivered_ends u
      → MovesOn t c (Clock.moved fl c t u).1
  unfolding Clock.moved
  moved-MovesOn c t u at v h w =
      if_rule (λ (r : Bool × Session Value S). MovesOn t c r.1) (u == t)
        (t, at, omega arith, v, refl)
        (subst (MovesOn t c)
          (sym (set_presentation_time_lem (some u) (record c { media_clock = some u })))
          (u, refl, h, w, refl))

  advance_by-MovesOn :
      (c : Session Value S) (t : ℕ) (dt : Option ℕ)
      → c.media_clock ≡ some t
      → Covers c.track_delivered_ends t
      → MovesOn t c (Clock.advance_by fl c t dt).1
  unfolding Clock.advance_by
  advance_by-MovesOn c t none at v = (t, at, omega arith, v, refl)
  advance_by-MovesOn c t (some dt) at v =
      let b = capped-Covers c.track_delivered_ends t (t + dt) v (le-add_right t dt) in
      moved-MovesOn c t _ at v b.0 b.1

  advance_sampled-MovesOn :
      (wall : Option ℕ) (now t : ℕ) (c : Session Value S)
      → c.media_clock ≡ some t
      → Covers c.track_delivered_ends t
      → MovesOn t c (Clock.advance_sampled fl (some t) wall now c).1
  unfolding Clock.advance_sampled
  advance_sampled-MovesOn none now t c at v = (t, at, omega arith, v, refl)
  advance_sampled-MovesOn (some w) now t c at v =
      if_rule (λ (r : Bool × Session Value S). MovesOn t c r.1) _ (t, at, omega arith, v, refl)
        (advance_by-MovesOn (record c { media_clock_wall = some now }) t _ at v)

  -- Advancing the media clock never moves it back and never past the media that a track has
  -- delivered, if it stands within that media, and leaves the delivered media as it was. Unless the
  -- session is playing, is not paused and has not stopped, the clock stays.
  pub advance_media_clock-MovesOn :
      (now t : ℕ) (c : Session Value S)
      → c.media_clock ≡ some t
      → Covers c.track_delivered_ends t
      → MovesOn t c (Clock.advance_media_clock fl now c).1
        × (Clock.is_advancing c ≡ false
            → (Clock.advance_media_clock fl now c).1.media_clock ≡ some t)
  unfolding Clock.advance_media_clock
  advance_media_clock-MovesOn now t c at v =
      let sampled =
        subst (λ o. MovesOn t c (Clock.advance_sampled fl o c.media_clock_wall now c).1) (sym at)
          (advance_sampled-MovesOn c.media_clock_wall now t c at v) in
      (
        if_rule (λ (r : Bool × Session Value S). MovesOn t c r.1) (Clock.is_advancing c) sampled
            (t, at, omega arith, v, refl),
        λ h. rw h at,
      )

  -- After a delivered segment the track's media end at the segment's end, or at its start if that is
  -- later, unless the track had media to a later time, which are kept; no other track changes. It
  -- starts the media clock and the playhead at the segment's start if the clock has not been
  -- started, and otherwise leaves both.
  pub record_segment_delivery-extends :
      (i start end : ℕ) (c : Session Value S)
      → let d = (Clock.record_segment_delivery i start end c).1 in
        (Clock.end_of i d.track_delivered_ends
          ≡ some (max (unwrap_or (Clock.end_of i c.track_delivered_ends) 0) (max start end)))
        × ((j : ℕ)
            → i ≢ j
            → Clock.end_of j d.track_delivered_ends ≡ Clock.end_of j c.track_delivered_ends)
        × (d.media_clock ≡ some (unwrap_or c.media_clock start))
        × (c.media_clock ≡ none → d.playhead ≡ some start)
        × ((t : ℕ) → c.media_clock ≡ some t → d.playhead ≡ c.playhead)
  unfolding Clock.record_segment_delivery
  record_segment_delivery-extends i start end c =
      let old = Clock.end_of i c.track_delivered_ends in
      let v : Option ℕ = some (Clock.later_of old (max end start)) in
      let d = record c { track_delivered_ends = Clock.set_end i v c.track_delivered_ends } in
      let same = start_clock-ends c.media_clock start d in
      let until : max end start ≡ max start end = omega arith in
      (
        ap (Clock.end_of i) same
            ∙ end_of-set_end_self i v c.track_delivered_ends
            ∙ ap some (later_of_max old (max end start) ∙ ap (max (unwrap_or old 0)) until),
        (λ j h. ap (Clock.end_of j) same ∙ end_of-set_end_ne i j v c.track_delivered_ends h),
        start_clock-media_clock c.media_clock start d refl,
        (λ h.
            subst (λ o. (Clock.start_clock o start d).1.playhead ≡ some start) (sym h)
              (start_clock-playhead start d)),
        λ t h.
            subst (λ o. (Clock.start_clock o start d).1.playhead ≡ c.playhead) (sym h)
              (start_clock-quiet t start d),
      )

  end_needed-estimated :
      (i t : ℕ) (held : Option ℕ) (c : Session Value S)
      → c.media_clock ≡ some t
      → let d = Clock.end_needed fl i t held c in
        ((h : ℕ) → held ≡ some h → Clock.estimated_buffer_s fl i d ≡ fl.as_secs h)
        × (held ≡ none → d.track_delivered_ends ≡ c.track_delivered_ends)
        × (d.media_clock ≡ some t)
        × ((j : ℕ)
            → i ≢ j
            → Clock.end_of j d.track_delivered_ends ≡ Clock.end_of j c.track_delivered_ends)
  unfolding Clock.end_needed
  end_needed-estimated i t none c at = ((λ h e. cc), (λ e. refl), at, λ j h. refl)
  end_needed-estimated i t (some held) c at =
      let d = Clock.end_needed fl i t (some held) c in
      (
        (λ h e.
            let left : t + held - t ≡ h = ground (arith, e) in
            estimated_at i t (t + held) d
              (end_of-set_end_self i (some (t + held)) c.track_delivered_ends) at
            ∙ ap fl.as_secs left),
        (λ e. cc),
        at,
        λ j h. end_of-set_end_ne i j (some (t + held)) c.track_delivered_ends h,
      )

  -- After a consumer has reported its buffer, the controller's estimate of the track is the
  -- reported number of seconds as a Duration, or that of 0 if the report is no finite positive
  -- number. A number that no Duration holds stops the method before it writes the delivered media.
  -- Either way the other tracks keep their media, and a clock that has not been started stands at 0.
  pub resync-buffered :
      (i : ℕ) (b : Value) (c : Session Value S)
      → let d = Clock.resync_media_clock_from_buffer fl i b c in
        let held = fl.from_secs (if positive fl b then b else fl.literal 0 1) in
        ((h : ℕ) → held ≡ some h → Clock.estimated_buffer_s fl i d ≡ fl.as_secs h)
        × (held ≡ none → d.track_delivered_ends ≡ c.track_delivered_ends)
        × (d.media_clock ≡ some (unwrap_or c.media_clock 0))
        × ((j : ℕ)
            → i ≢ j
            → Clock.end_of j d.track_delivered_ends ≡ Clock.end_of j c.track_delivered_ends)
  unfolding Clock.resync_media_clock_from_buffer
  resync-buffered i b c =
      let held = fl.from_secs (if positive fl b then b else fl.literal 0 1) in
      let d = Clock.place_clock c.media_clock c in
      let at = place_clock-media_clock c.media_clock c refl in
      let kept = place_clock-ends c.media_clock c in
      let (is, panics, clock, others) =
        end_needed-estimated i (unwrap_or c.media_clock 0) held d at in
      (is, (λ e. panics e ∙ kept), clock, λ j h. others j h ∙ ap (Clock.end_of j) kept)
