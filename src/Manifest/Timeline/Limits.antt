-- ===== src/Manifest/Timeline/Limits.antt =====
-- The limit on the expansion of a `SegmentTimeline` (src/manifest/timeline/mod.rs).
use dashplay_rs.Prelude.{
  ℕ, zero, suc, ℤ, pos, negsuc, ◌+◌, ◌/◌, ◌<◌, ◌≤◌, ◌≡◌, refl, sym, ap, ◌∙◌, subst, Option, none,
  some, List, [], ◌∷◌, unwrap_or, length, length-append, lt→ltb, le→ltb, lt_or_le, inl, inr, ◌==◌,
  Result, ok, err, ◌>>=◌, and_then, arith, Bool-cases, if_rule,
}
use dashplay_rs.Float.{F64}
use dashplay_rs.Manifest.Types.{
  ManifestError, TimelineSegment, zero_timescale, unbounded_segment_timeline_repeat,
}
use dashplay_rs.Manifest.Timeline.{S, SegmentTemplate, TimelineBuildContext}
use dashplay_rs.Manifest.Timeline.Explicit.{
  max_expansion, Grid, checked, State, Progress, subsegments, emit_segment_sequence, emitted,
  emit_once, repeat_sequence, NegativeRepeatEnd, is_reached, turn, repeat_until, repeated, entered,
  left, negative_r_repeat_end, expand_entry, expand_entries, segments_from_explicit_timeline,
}

pub checked-positive : (s : S) (k : ℕ) → checked s ≡ ok k → 0 < k
unfolding checked
checked-positive s k h = ground (arith, h)

module _ (fl : F64) where
  pub length-subsegments :
      (g : Grid) (t number d_per k sub left' : ℕ)
      → length (subsegments fl g t number d_per k sub left') ≡ left'
  unfolding subsegments
  length-subsegments g t number d_per k sub zero = refl
  length-subsegments g t number d_per k sub (suc n) =
      ap suc (length-subsegments g t number d_per k (sub + 1) n)

  pub length-emitted :
      (g : Grid) (d k : ℕ) (p : Progress fl)
      → length (emitted fl g d k p).segments ≡ length p.segments + k
  unfolding emitted emit_segment_sequence
  length-emitted g d k p =
      length-append p.segments _
      ∙ ap (λ n. length p.segments + n) (length-subsegments g p.time p.number (d / k) k 1 k)

  -- A result is there, and it is an error or keeps the limit.
  abbrev pub Within :
      {A : Type 0} → (A → List (TimelineSegment fl.Value)) → Result ManifestError A → Type 0
  Within of (ok a) = length (of a) ≤ max_expansion
  Within of (err e) = Unit

  abbrev pub EndsWithin :
      {A : Type 0}
      → (A → List (TimelineSegment fl.Value))
      → Option (Result ManifestError A)
      → Type 0
  EndsWithin {A = A} of o = (r : Result ManifestError A) × (o ≡ some r) × Within of r

  bind-Within :
      {A B : Type 0} (of : A → List (TimelineSegment fl.Value))
      (to : B → List (TimelineSegment fl.Value)) (r : Result ManifestError A)
      (f : A → Result ManifestError B)
      → Within of r
      → ((a : A) → length (of a) ≤ max_expansion → Within to (f a))
      → Within to (r >>= f)
  bind-Within of to (ok a) f w h = h a w
  bind-Within of to (err e) f w h = tt

  and_then-EndsWithin :
      {A B : Type 0} (of : A → List (TimelineSegment fl.Value))
      (to : B → List (TimelineSegment fl.Value)) (o : Option (Result ManifestError A))
      (f : A → Option (Result ManifestError B))
      → EndsWithin of o
      → ((a : A) → length (of a) ≤ max_expansion → EndsWithin to (f a))
      → EndsWithin to (and_then o f)
  and_then-EndsWithin of to o f (ok a, e, w) h =
      subst (λ x. EndsWithin to (and_then x f)) (sym e) (h a w)
  and_then-EndsWithin of to o f (err x, e, w) h = (err x, ap (λ y. and_then y f) e, tt)

  module _ (g : Grid) (d k : ℕ) where
    emit_once-Within : (p : Progress fl) → Within (λ q. q.segments) (emit_once fl g d k p)
    unfolding emit_once
    emit_once-Within p = elim (lt_or_le max_expansion (length p.segments + k)) [
      | inl full ↦ rw (lt→ltb max_expansion (length p.segments + k) full) tt
      | inr room ↦
          rw (le→ltb max_expansion (length p.segments + k) room)
            (omega (arith, length-emitted g d k p))
    ]

    repeat_sequence-Within :
        (n : ℕ) (p : Progress fl)
        → length p.segments ≤ max_expansion
        → Within (λ q. q.segments) (repeat_sequence fl n g d k p)
    unfolding repeat_sequence
    repeat_sequence-Within zero p h = h
    repeat_sequence-Within (suc n) p h =
        bind-Within (λ q. q.segments) (λ q. q.segments) (emit_once fl g d k p)
          (repeat_sequence fl n g d k) (emit_once-Within p) (repeat_sequence-Within n)

    repeat_until-EndsWithin :
        (fuel : ℕ) (end : NegativeRepeatEnd fl) (p : Progress fl)
        → 0 < k
        → length p.segments ≤ max_expansion
        → max_expansion < fuel + length p.segments
        → EndsWithin (λ q. q.segments) (repeat_until fl fuel g end d k p)
    unfolding repeat_until turn
    repeat_until-EndsWithin zero end p filled h f = absurd (omega arith)
    repeat_until-EndsWithin (suc fuel) end p filled h f =
        elim (lt_or_le max_expansion (length p.segments + k)) [
          | inl full ↦ (
            err unbounded_segment_timeline_repeat,
            rw (lt→ltb max_expansion (length p.segments + k) full, repeat_until) refl,
            tt,
          )
          | inr room ↦ elim (Bool-cases (is_reached fl g end p.time)) [
            | inl reached ↦ (
              ok p,
              rw (le→ltb max_expansion (length p.segments + k) room, reached, repeat_until) refl,
              h,
            )
            | inr before ↦
                let grown = length-emitted g d k p in
                let (r, e, w) =
                  repeat_until-EndsWithin fuel end (emitted fl g d k p) filled
                    (omega (arith, grown)) (omega (arith, grown)) in
                (
                  r,
                  rw (le→ltb max_expansion (length p.segments + k) room, before, repeat_until) e,
                  w,
                )
          ]
        ]

  module _ (fuel : ℕ) (enough : max_expansion < fuel) (g : Grid)
      (ctx : TimelineBuildContext fl.Value) where
    repeated-EndsWithin :
        (tail : List S) (d k : ℕ) (r : ℤ) (p : Progress fl)
        → 0 < k
        → length p.segments ≤ max_expansion
        → EndsWithin (λ q. q.segments) (repeated fl fuel g ctx tail d k r p)
    unfolding repeated
    repeated-EndsWithin tail d k (pos r) p filled h =
        (_, refl, repeat_sequence-Within g d k (suc r) p h)
    repeated-EndsWithin tail d k (negsuc r) p filled h =
        until_end (negative_r_repeat_end fl tail ctx)
      where
        until_end :
            (end : Result ManifestError (NegativeRepeatEnd fl))
            → EndsWithin
                (λ q. q.segments)
                (and_then (some end) (λ e. repeat_until fl fuel g e d k p))
        until_end (ok end) =
            repeat_until-EndsWithin g d k fuel end p filled h (omega (arith, enough))
        until_end (err e) = (err e, refl, tt)

    expand_entry-EndsWithin :
        (tail : List S) (s : S) (st : State fl)
        → length st.segments ≤ max_expansion
        → EndsWithin (λ q. q.segments) (expand_entry fl fuel g ctx tail s st)
    unfolding expand_entry entered left
    expand_entry-EndsWithin tail s st h = with_check (checked s) refl
      where
        with_check :
            (c : Result ManifestError ℕ)
            → checked s ≡ c
            → EndsWithin
                (λ q. q.segments)
                (and_then (some c) λ k.
                  and_then
                    (repeated fl fuel g ctx tail s.d k (unwrap_or s.r (pos 0)) (entered fl s st))
                    λ p. some (ok (left fl p)))
        with_check (ok k) e =
            and_then-EndsWithin (λ q. q.segments) (λ q. q.segments) _ (λ p. some (ok (left fl p)))
              (repeated-EndsWithin tail s.d k (unwrap_or s.r (pos 0)) (entered fl s st)
                (checked-positive s k e) h)
              (λ q w. (ok (left fl q), refl, w))
        with_check (err x) e = (err x, refl, tt)

    expand_entries-EndsWithin :
        (ss : List S) (st : State fl)
        → length st.segments ≤ max_expansion
        → EndsWithin (λ q. q.segments) (expand_entries fl fuel g ctx ss st)
    unfolding expand_entries
    expand_entries-EndsWithin [] st h = (ok st, refl, h)
    expand_entries-EndsWithin (s ∷ ss) st h =
        and_then-EndsWithin (λ q. q.segments) (λ q. q.segments) _ _
          (expand_entry-EndsWithin ss s st h) (expand_entries-EndsWithin ss)

  -- With more fuel than the expansion limit the expansion of a `SegmentTimeline` ends, whatever the
  -- entries are, also where they repeat until an end that is never reached: with an error, or with
  -- no more segments than the limit.
  pub segments_from_explicit_timeline-EndsWithin :
      (fuel : ℕ) (st : SegmentTemplate fl.Value) (timeline : List S)
      (ctx : TimelineBuildContext fl.Value)
      → max_expansion < fuel
      → EndsWithin (λ segments. segments) (segments_from_explicit_timeline fl fuel st timeline ctx)
  unfolding segments_from_explicit_timeline
  segments_from_explicit_timeline-EndsWithin fuel st timeline ctx enough =
      if_rule (EndsWithin (λ segments. segments)) (unwrap_or st.timescale 1 == 0)
        (err zero_timescale, refl, tt)
        (and_then-EndsWithin (λ q. q.segments) (λ segments. segments) _ (λ q. some (ok q.segments))
          (expand_entries-EndsWithin fuel enough _ ctx timeline
            (record {
              segments = [];
              current_number = unwrap_or st.start_number 1;
              current_time = none;
            })
            (omega arith))
          (λ q w. (ok q.segments, refl, w)))
