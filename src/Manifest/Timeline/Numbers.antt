-- ===== src/Manifest/Timeline/Numbers.antt =====
-- The numbers of the segments of `SegmentTemplate@duration` (src/manifest/timeline/mod.rs).
use dashplay_rs.Prelude.{
  ℕ, zero, suc, ◌+◌, ◌-◌, ◌^◌, ◌%◌, ◌<◌, ◌≤◌, ◌≡◌, refl, sym, ap, ap₂, length, ◌∙◌, subst, min, max,
  Option, none, some, List, [], ◌∷◌, map, ◌==◌, unwrap_or, filter_option, ok_or, lt→ltb, le→ltb,
  lt_or_le, inl, inr, ◌⊎◌, Result, ok, err, ◌>>=◌, arith, if_rule,
}
use dashplay_rs.Float.{F64}
use dashplay_rs.Manifest.Types.{ManifestError, TimelineSegment, missing_segment_duration}
use dashplay_rs.Manifest.Timeline.{SegmentTemplate, TimelineBuildContext, period_length_secs}
use dashplay_rs.Manifest.Timeline.Template.{
  Segments, Uniform, numbered, run, shortened, bound_last_static_duration_segment, bounded,
  static_duration_segment_count, static_segments, length_secs, last_number, first_number,
  covering_number, within_end, live_position, number_at, capped_number, dynamic_segments_at,
  dynamic_segments, uniform_of, duration_segments, segments_from_duration_template,
}

-- `n` numbers from `i` on.
abbrev pub count_up : ℕ → ℕ → List ℕ
count_up i zero = []
count_up i (suc n) = i ∷ count_up (i + 1) n

-- No number is past the last, where there is one.
abbrev pub UpTo : Option ℕ → ℕ → Type 0
UpTo none n = Unit
UpTo (some end_number) n = n ≤ end_number + 1

module _ (fl : F64) where
  abbrev pub numbers : Segments fl → List ℕ
  numbers segments = map (λ s. s.number) segments

  numbers-run :
      (u : Uniform fl) (i n : ℕ)
      → u.start_number + i + n ≤ 2 ^ 64
      → numbers (run fl u i n) ≡ count_up (u.start_number + i) n
  unfolding run numbered
  numbers-run u i zero room = refl
  numbers-run u i (suc n) room =
      let here : (u.start_number + i) % 2 ^ 64 ≡ u.start_number + i = omega arith in
      let next : u.start_number + (i + 1) ≡ u.start_number + i + 1 = omega arith in
      ap₂ (λ j js. j ∷ js) here
        (numbers-run u (i + 1) n (omega arith) ∙ ap (λ j. count_up j n) next)

  length-run : (u : Uniform fl) (i n : ℕ) → length (run fl u i n) ≡ n
  unfolding run
  length-run u i zero = refl
  length-run u i (suc n) = ap suc (length-run u (i + 1) n)

  length-numbers : (segments : Segments fl) → length (numbers segments) ≡ length segments
  length-numbers [] = refl
  length-numbers (s ∷ ss) = ap suc (length-numbers ss)

  number-shortened :
      (length_s : fl.Value) (timescale : ℕ) (s : TimelineSegment fl.Value)
      → (shortened fl length_s timescale s).number ≡ s.number
  unfolding shortened
  number-shortened length_s timescale s =
      if_rule (λ (x : TimelineSegment fl.Value). x.number ≡ s.number) _ refl refl

  numbers-bound_last :
      (length_s : fl.Value) (timescale : ℕ) (segments : Segments fl)
      → numbers (bound_last_static_duration_segment fl length_s timescale segments)
        ≡ numbers segments
  unfolding bound_last_static_duration_segment
  numbers-bound_last length_s timescale [] = refl
  numbers-bound_last length_s timescale (s ∷ []) =
      ap (λ n. n ∷ []) (number-shortened length_s timescale s)
  numbers-bound_last length_s timescale (s ∷ t ∷ ss) =
      ap (◌∷◌ s.number) (numbers-bound_last length_s timescale (t ∷ ss))

  numbers-bounded :
      (length_s : Option fl.Value) (timescale : ℕ) (segments : Segments fl)
      → numbers (bounded fl length_s timescale segments) ≡ numbers segments
  unfolding bounded
  numbers-bounded none timescale segments = refl
  numbers-bounded (some length_s) timescale segments =
      numbers-bound_last length_s timescale segments

  -- Numbered one after the other, from the start number at the earliest to the end number at the
  -- latest.
  pub record Numbered (start_number : ℕ) (end_number : Option ℕ) (segments : Segments fl)
      : Type 0 where
    pub first : ℕ
    pub count : ℕ
    pub is : numbers segments ≡ count_up first count
    pub from : start_number ≤ first
    pub to : UpTo end_number (first + count)

  -- The same of an answer, where the numbers do not wrap.
  abbrev NumberedIfOk : ℕ → Option ℕ → Result ManifestError (Segments fl) → Type 0
  NumberedIfOk start_number end_number (ok segments) =
      start_number + length segments ≤ 2 ^ 64
      → (segments ≡ []) ⊎ Numbered start_number end_number segments
  NumberedIfOk start_number end_number (err e) = Unit

  count_UpTo :
      (u : Uniform fl) (end_number : Option ℕ) (ctx : TimelineBuildContext fl.Value) (n : ℕ)
      → static_duration_segment_count fl u.start_number (length_secs fl u) end_number ctx ≡ ok n
      → UpTo end_number (u.start_number + n)
  unfolding static_duration_segment_count
  count_UpTo u none ctx n h = tt
  count_UpTo u (some end_number) ctx n h = ground (arith, h)

  within_UpTo : (end_number : Option ℕ) (n : ℕ) → UpTo end_number (within_end fl end_number n + 1)
  unfolding within_end
  within_UpTo none n = tt
  within_UpTo (some end_number) n = omega arith

  number_at_u64 : (u : Uniform fl) (t : fl.Value) → number_at fl u t < 2 ^ 64
  unfolding number_at
  number_at_u64 u t = omega arith

  capped_number_u64 :
      (u : Uniform fl) (o : Option fl.Value) (n : ℕ) → n < 2 ^ 64 → capped_number fl u o n < 2 ^ 64
  unfolding capped_number
  capped_number_u64 u none n h = h
  capped_number_u64 u (some l) n h =
      if_rule (λ (m : ℕ). m < 2 ^ 64) (fl.ltb (fl.literal 0 1) l) {x = min n _} (omega arith) h

  within_end_u64 : (o : Option ℕ) (n : ℕ) → n < 2 ^ 64 → within_end fl o n < 2 ^ 64
  unfolding within_end
  within_end_u64 none n h = h
  within_end_u64 (some e) n h = omega arith

  module _ (u : Uniform fl) (end_number : Option ℕ) (ctx : TimelineBuildContext fl.Value) where
    abbrev pub of_run : ℕ → ℕ → Segments fl
    of_run i n = bounded fl (period_length_secs fl ctx) u.timescale (run fl u i n)

    numbers-of_run :
        (i n : ℕ)
        → u.start_number + i + n ≤ 2 ^ 64
        → numbers (of_run i n) ≡ count_up (u.start_number + i) n
    numbers-of_run i n room =
        numbers-bounded (period_length_secs fl ctx) u.timescale (run fl u i n)
        ∙ numbers-run u i n room

    length-of_run : (i n : ℕ) → length (of_run i n) ≡ n
    length-of_run i n =
        sym (length-numbers (of_run i n))
        ∙ ap length (numbers-bounded (period_length_secs fl ctx) u.timescale (run fl u i n))
        ∙ length-numbers (run fl u i n)
        ∙ length-run u i n

    pub numbers-static :
        (n : ℕ) → u.start_number + n ≤ 2 ^ 64 → numbers (of_run 0 n) ≡ count_up u.start_number n
    numbers-static n room = numbers-of_run 0 n (omega arith) ∙ ap (λ j. count_up j n) (omega arith)

    static_count :
        (r : Result ManifestError ℕ)
        → ((n : ℕ) → r ≡ ok n → UpTo end_number (u.start_number + n))
        → NumberedIfOk u.start_number end_number (r >>= λ n. ok (of_run 0 n))
    static_count (ok n) h = λ room. inr (record {
      first = u.start_number;
      count = n;
      is = numbers-static n (omega (arith, room, length-of_run 0 n));
      from = omega arith;
      to = h n refl;
    })
    static_count (err e) h = tt

    static-Numbered : NumberedIfOk u.start_number end_number (static_segments fl u end_number ctx)
    unfolding static_segments
    static-Numbered =
        static_count
          (static_duration_segment_count fl u.start_number (length_secs fl u) end_number ctx)
          (count_UpTo u end_number ctx)

    covering_bounds :
        (cover : Option fl.Value) (t : fl.Value) (start_n end_n : ℕ)
        → u.start_number ≤ start_n
        → start_n ≤ end_n
        → (u.start_number ≤ covering_number fl u cover t start_n)
          × (covering_number fl u cover t start_n ≤ end_n)
    unfolding covering_number
    covering_bounds none t start_n end_n low high = (low, high)
    covering_bounds (some must_cover) t start_n end_n low high =
        if_rule (λ (n : ℕ). (u.start_number ≤ n) × (n ≤ end_n))
          (fl.ltb (fl.add must_cover (fl.literal 1 1_000_000)) t)
          {x = min start_n (max (number_at fl u must_cover) u.start_number)}
          (omega arith, omega arith) (low, high)

    first_number_bounds :
        (t : fl.Value) (end_n : ℕ)
        → u.start_number ≤ end_n
        → (u.start_number ≤ first_number fl u ctx t end_n) × (first_number fl u ctx t end_n ≤ end_n)
    unfolding first_number
    first_number_bounds t end_n h =
        covering_bounds ctx.must_cover_presentation_s t _ end_n (omega arith) (omega arith)

    dynamic-Numbered :
        (t : fl.Value)
        → NumberedIfOk u.start_number end_number (ok (dynamic_segments_at fl u end_number ctx t))
    unfolding dynamic_segments_at last_number
    dynamic-Numbered t room =
        let last =
          within_end fl end_number
            (capped_number fl u (period_length_secs fl ctx) (number_at fl u t)) in
        let first = first_number fl u ctx t last in
        elim (lt_or_le last u.start_number) [
          | inl past ↦ rw (lt→ltb last u.start_number past) (inl refl)
          | inr low ↦
              let (from, to) = first_number_bounds t last low in
              let begin : u.start_number + (first - u.start_number) ≡ first = omega (arith, from) in
              let end : last + 1 ≡ first + (last + 1 - first) = omega (arith, to) in
              let u64 : last < 2 ^ 64 =
                within_end_u64 end_number _
                  (capped_number_u64 u (period_length_secs fl ctx) _ (number_at_u64 u t)) in
              rw (le→ltb last u.start_number low) (
                inr (record {
                  first = first;
                  count = last + 1 - first;
                  is =
                      numbers-of_run (first - u.start_number) (last + 1 - first)
                        (omega (arith, begin, end, u64))
                      ∙ ap (λ j. count_up j (last + 1 - first)) begin;
                  from = from;
                  to = subst (UpTo end_number) end (within_UpTo end_number _);
                }))
        ]

    dynamic_or_missing :
        (since : Option ℕ)
        → NumberedIfOk u.start_number end_number (dynamic_segments fl u end_number ctx since)
    unfolding dynamic_segments
    dynamic_or_missing none = tt
    dynamic_or_missing (some since) = dynamic-Numbered (live_position fl ctx since)

    duration_segments-Numbered :
        NumberedIfOk u.start_number end_number (duration_segments fl u end_number ctx)
    unfolding duration_segments
    duration_segments-Numbered =
        if_rule (NumberedIfOk u.start_number end_number) (u.timescale == 0) tt (
          if_rule (NumberedIfOk u.start_number end_number) ctx.is_dynamic
            (dynamic_or_missing ctx.since_availability_start) static-Numbered)

  -- The segments of a template with a duration, of a static or a dynamic MPD, where there are any:
  -- their numbers go up by one, from the start number at the earliest to the end number, where
  -- there is one, at the latest. The start number and the count of the segments must not add up to
  -- more than 2^64, where the numbers of a static MPD without an end number wrap.
  pub segments_from_duration_template-Numbered :
      (st : SegmentTemplate fl.Value) (ctx : TimelineBuildContext fl.Value) (end_number : Option ℕ)
      (segments : Segments fl)
      → segments_from_duration_template fl st ctx end_number ≡ ok segments
      → unwrap_or st.start_number 1 + length segments ≤ 2 ^ 64
      → (segments ≡ []) ⊎ Numbered (unwrap_or st.start_number 1) end_number segments
  unfolding segments_from_duration_template uniform_of
  segments_from_duration_template-Numbered st ctx end_number segments is =
      subst (NumberedIfOk (unwrap_or st.start_number 1) end_number) is (
        by_duration
          (ok_or (filter_option (fl.ltb (fl.literal 0 1)) st.duration) missing_segment_duration))
    where
      by_duration :
          (d : Result ManifestError fl.Value)
          → NumberedIfOk
              (unwrap_or st.start_number 1)
              end_number
              (d >>= λ v. duration_segments fl (uniform_of fl st v) end_number ctx)
      by_duration (ok d) = duration_segments-Numbered (uniform_of fl st d) end_number ctx
      by_duration (err e) = tt
