-- ===== src/Abr/DroppedFrames/Accounting.antt =====
-- The frames that a history has counted (src/abr/dropped_frames.rs).
use dashplay_rs.Prelude.{
  ℕ, ◌+◌, ◌-◌, ◌^◌, ◌<◌, ◌≤◌, ◌≡◌, refl, sym, ap, ◌∙◌, subst, Bool, true, not, ◌&&◌, ◌||◌, some,
  List, [], ◌∷◌, ltb, ◌==◌, if_rule, if_by, arith,
}
use dashplay_rs.Float.{F64}
use dashplay_rs.Abr.DroppedFrames.{
  ByQuality, added, attribute, DroppedFramesParams, History, with_params, set_active_quality,
  attributed, push, Call, pushes, activates, call_all,
}

abbrev pub total_of : ByQuality → ℕ
total_of [] = 0
total_of ((q, stats) ∷ rest) = stats.total_video_frames + total_of rest

abbrev pub dropped_of : ByQuality → ℕ
dropped_of [] = 0
dropped_of ((q, stats) ∷ rest) = stats.dropped_video_frames + dropped_of rest

-- Counters that do not go back, from where they are on.
abbrev pub Rising : ℕ → ℕ → List Call → Type 0
Rising dropped total [] = Unit
Rising dropped total (activates q ∷ cs) = Rising dropped total cs
Rising dropped total (pushes d t ∷ cs) =
    (dropped ≤ d) × (total ≤ t) × (d < 2 ^ 64) × (t < 2 ^ 64) × Rising d t cs

-- The counters of the last sample among calls, or those given if there is none.
abbrev pub latest_total : ℕ → List Call → ℕ
latest_total t [] = t
latest_total t (activates q ∷ cs) = latest_total t cs
latest_total t (pushes d t' ∷ cs) = latest_total t' cs

abbrev pub latest_dropped : ℕ → List Call → ℕ
latest_dropped d [] = d
latest_dropped d (activates q ∷ cs) = latest_dropped d cs
latest_dropped d (pushes d' t ∷ cs) = latest_dropped d' cs

not-true : (b : Bool) → b ≡ true → not b ≡ true → ⊥
not-true b h e = ground (arith, h, e)

total_of-attribute :
    (q dropped total : ℕ) (l : ByQuality)
    → total_of l + total < 2 ^ 64
    → dropped_of l + dropped < 2 ^ 64
    → (total_of (attribute q dropped total l) ≡ total_of l + total)
      × (dropped_of (attribute q dropped total l) ≡ dropped_of l + dropped)
unfolding attribute added
total_of-attribute q dropped total [] h k = (omega arith, omega arith)
total_of-attribute q dropped total ((i, stats) ∷ rest) h k =
    let (more_total, more_dropped) =
      total_of-attribute q dropped total rest (omega arith) (omega arith) in
    if_rule
      (λ (l : ByQuality).
        (total_of l ≡ stats.total_video_frames + total_of rest + total)
        × (dropped_of l ≡ stats.dropped_video_frames + dropped_of rest + dropped))
      (q == i) (omega arith, omega arith)
      (if_rule
        (λ (l : ByQuality).
          (total_of l ≡ stats.total_video_frames + total_of rest + total)
          × (dropped_of l ≡ stats.dropped_video_frames + dropped_of rest + dropped))
        (ltb q i) (omega arith, omega arith)
        (omega (arith, more_total), omega (arith, more_dropped)))

module _ (fl : F64) (d0 t0 : ℕ) where
  -- All frames since the first sample are attributed.
  record IsAccounted (h : History fl) : Type 0 where
    baseline : h.has_baseline ≡ true
    active : ℕ
    is_active : h.active_quality_index ≡ some active
    total : total_of h.by_quality + t0 ≡ h.last_total
    dropped : dropped_of h.by_quality + d0 ≡ h.last_dropped

  push-IsAccounted :
      (d t : ℕ) (h : History fl)
      → h.last_dropped ≤ d
      → h.last_total ≤ t
      → d < 2 ^ 64
      → t < 2 ^ 64
      → IsAccounted h
      → IsAccounted (push fl d t h)
  unfolding push attributed
  push-IsAccounted d t h hd ht bd bt a =
      let room : total_of h.by_quality + (t - h.last_total) < 2 ^ 64 = omega (arith, a.total) in
      let room' : dropped_of h.by_quality + (d - h.last_dropped) < 2 ^ 64 =
        omega (arith, a.dropped) in
      let grown : attributed fl h.active_quality_index (d - h.last_dropped) (t - h.last_total)
            h.by_quality
          ≡ attribute a.active (d - h.last_dropped) (t - h.last_total) h.by_quality =
        ap (λ o. attributed fl o (d - h.last_dropped) (t - h.last_total) h.by_quality)
          a.is_active in
      let (by_total, by_dropped) =
        total_of-attribute a.active (d - h.last_dropped) (t - h.last_total) h.by_quality room
          room' in
      if_by IsAccounted (not h.has_baseline) (λ e. absurd (not-true h.has_baseline a.baseline e))
        λ e.
          if_by IsAccounted (ltb d h.last_dropped || ltb t h.last_total)
            (λ back. absurd (ground (arith, hd, ht, back)))
            λ forth.
              if_by IsAccounted (t - h.last_total == 0 && d - h.last_dropped == 0)
                (λ still. record {
                  baseline = a.baseline;
                  active = a.active;
                  is_active = a.is_active;
                  total = ground (arith, still, ht, a.total);
                  dropped = ground (arith, still, hd, a.dropped);
                })
                (λ moved. record {
                  baseline = a.baseline;
                  active = a.active;
                  is_active = a.is_active;
                  total = ap (λ l. total_of l + t0) grown ∙ omega (arith, by_total, a.total);
                  dropped =
                      ap (λ l. dropped_of l + d0) grown ∙ omega (arith, by_dropped, a.dropped);
                })

  -- The counters are those of the last sample.
  record Sampled (d t : ℕ) (x : History fl) : Type 0 where
    at_dropped : x.last_dropped ≡ d
    at_total : x.last_total ≡ t

  push-Sampled : (d t : ℕ) (h : History fl) → Sampled d t (push fl d t h)
  unfolding push
  push-Sampled d t h =
      if_rule (Sampled d t) (not h.has_baseline) (record { at_dropped = refl; at_total = refl })
        (if_rule (Sampled d t) (ltb d h.last_dropped || ltb t h.last_total)
          (record { at_dropped = refl; at_total = refl })
          (if_rule (Sampled d t) (t - h.last_total == 0 && d - h.last_dropped == 0)
            (record { at_dropped = refl; at_total = refl })
            (record { at_dropped = refl; at_total = refl })))

  call_all-Sampled :
      (cs : List Call) (d t : ℕ) (h : History fl)
      → Sampled d t h
      → Sampled (latest_dropped d cs) (latest_total t cs) (call_all fl cs h)
  unfolding set_active_quality
  call_all-Sampled [] d t h s = s
  call_all-Sampled (activates q ∷ cs) d t h s =
      call_all-Sampled cs d t (set_active_quality fl q h)
        (record { at_dropped = s.at_dropped; at_total = s.at_total })
  call_all-Sampled (pushes d' t' ∷ cs) d t h s =
      call_all-Sampled cs d' t' (push fl d' t' h) (push-Sampled d' t' h)

  call_all-IsAccounted :
      (cs : List Call) (h : History fl)
      → Rising h.last_dropped h.last_total cs
      → IsAccounted h
      → IsAccounted (call_all fl cs h)
  unfolding push set_active_quality
  call_all-IsAccounted [] h r a = a
  call_all-IsAccounted (activates q ∷ cs) h r a =
      call_all-IsAccounted cs (set_active_quality fl q h) r (record {
        baseline = a.baseline;
        active = q;
        is_active = refl;
        total = a.total;
        dropped = a.dropped;
      })
  call_all-IsAccounted (pushes d t ∷ cs) h (hd, ht, bd, bt, r) a =
      let at = push-Sampled d t h in
      call_all-IsAccounted cs (push fl d t h)
        (subst (λ x. Rising x (push fl d t h).last_total cs) (sym at.at_dropped)
          (subst (λ x. Rising d x cs) (sym at.at_total) r))
        (push-IsAccounted d t h hd ht bd bt a)

module _ (fl : F64) where
  first_sample :
      (p : DroppedFramesParams fl) (q d0 t0 : ℕ)
      → IsAccounted fl d0 t0 (push fl d0 t0 (set_active_quality fl q (with_params fl p)))
  unfolding push set_active_quality with_params
  first_sample p q d0 t0 = record {
    baseline = refl;
    active = q;
    is_active = refl;
    total = omega arith;
    dropped = omega arith;
  }

  -- A new history with an active quality, and counters that do not go back from the first sample
  -- on and are below 2^64, whatever qualities are active in between: the frames that are attributed
  -- to the qualities are just those between the first and the last sample, none lost and none
  -- counted twice, and so are the dropped ones.
  pub call_all-IsAccounted_from :
      (p : DroppedFramesParams fl) (q d0 t0 : ℕ) (cs : List Call)
      → Rising d0 t0 cs
      → let h = call_all fl (activates q ∷ pushes d0 t0 ∷ cs) (with_params fl p) in
        (total_of h.by_quality + t0 ≡ latest_total t0 cs)
        × (dropped_of h.by_quality + d0 ≡ latest_dropped d0 cs)
  call_all-IsAccounted_from p q d0 t0 cs r =
      let h = push fl d0 t0 (set_active_quality fl q (with_params fl p)) in
      let at = push-Sampled fl d0 t0 d0 t0 (set_active_quality fl q (with_params fl p)) in
      let a =
        call_all-IsAccounted fl d0 t0 cs h
          (subst (λ x. Rising x h.last_total cs) (sym at.at_dropped)
            (subst (λ x. Rising d0 x cs) (sym at.at_total) r))
          (first_sample p q d0 t0) in
      let end = call_all-Sampled fl d0 t0 cs d0 t0 h at in
      (a.total ∙ end.at_total, a.dropped ∙ end.at_dropped)
