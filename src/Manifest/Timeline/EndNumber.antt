-- ===== src/Manifest/Timeline/EndNumber.antt =====
-- A static template with an end number (src/manifest/timeline/mod.rs).
use dashplay_rs.Prelude.{
  ℕ, ◌+◌, ◌-◌, ◌^◌, ◌%◌, ◌<◌, ◌≤◌, ◌≡◌, ap, ◌∙◌, true, false, none, some, ◌==◌, if◌then◌else◌,
  unwrap_or, filter_option, ok_or, le→ltb, Result, ok, err, ◌>>=◌, arith,
}
use dashplay_rs.Float.{F64}
use dashplay_rs.Manifest.Types.{
  ManifestError, missing_segment_duration, zero_timescale, invalid_segment_template_end_number,
}
use dashplay_rs.Manifest.Timeline.{SegmentTemplate, TimelineBuildContext}
use dashplay_rs.Manifest.Timeline.Template.{
  Segments, Uniform, static_duration_segment_count, static_segments, dynamic_segments, uniform_of,
  duration_segments, segments_from_duration_template,
}
use dashplay_rs.Manifest.Timeline.Numbers.{count_up, numbers, of_run, numbers-static}

module _ (fl : F64) where
  duration_segments-static :
      (u : Uniform fl) (ctx : TimelineBuildContext fl.Value) (end_number : ℕ)
      → 0 < u.timescale
      → ctx.is_dynamic ≡ false
      → u.start_number ≤ end_number
      → end_number < 2 ^ 64 - 1
      → duration_segments fl u (some end_number) ctx
        ≡ ok (of_run fl u (some end_number) ctx 0 (end_number + 1 - u.start_number))
  unfolding duration_segments static_segments static_duration_segment_count
  duration_segments-static u ctx end_number scale static h u64 =
      let nonzero : (u.timescale == 0) ≡ false = ground (arith, scale) in
      let n : (end_number - u.start_number + 1) % 2 ^ 64 ≡ end_number + 1 - u.start_number =
        omega arith in
      let live = dynamic_segments fl u (some end_number) ctx ctx.since_availability_start in
      ap
        (λ b.
          if b
          then err zero_timescale
          else if ctx.is_dynamic
          then live
          else static_segments fl u (some end_number) ctx)
        nonzero
      ∙ ap (λ b. if b then live else static_segments fl u (some end_number) ctx) static
      ∙ ap
          (λ b.
            (if b
              then err invalid_segment_template_end_number
              else ok ((end_number - u.start_number + 1) % 2 ^ 64))
            >>= λ c. ok (of_run fl u (some end_number) ctx 0 c))
          (le→ltb end_number u.start_number h)
      ∙ ap (λ c. ok (of_run fl u (some end_number) ctx 0 c)) n

  -- The segments of a static template, exactly.
  pub record Exactly (start_number end_number : ℕ) (r : Result ManifestError (Segments fl))
      : Type 0 where
    pub segments : Segments fl
    pub is : r ≡ ok segments
    pub each : numbers fl segments ≡ count_up start_number (end_number + 1 - start_number)

  -- A static template with a positive duration and an end number has a segment for each number from
  -- the start number through the end number, however long the Period is.
  pub segments_from_duration_template-Exactly :
      (st : SegmentTemplate fl.Value) (ctx : TimelineBuildContext fl.Value) (end_number : ℕ)
      (d : fl.Value)
      → st.duration ≡ some d
      → fl.ltb (fl.literal 0 1) d ≡ true
      → 0 < unwrap_or st.timescale 1
      → ctx.is_dynamic ≡ false
      → unwrap_or st.start_number 1 ≤ end_number
      → end_number < 2 ^ 64 - 1
      → Exactly
          (unwrap_or st.start_number 1)
          end_number
          (segments_from_duration_template fl st ctx (some end_number))
  unfolding segments_from_duration_template uniform_of
  segments_from_duration_template-Exactly st ctx end_number d h1 positive scale static h u64 =
      let u = uniform_of fl st d in
      let by_template : fl.Value → Result ManifestError (Segments fl) =
        λ v. duration_segments fl (uniform_of fl st v) (some end_number) ctx in
      record {
        segments = of_run fl u (some end_number) ctx 0 (end_number + 1 - u.start_number);
        is =
            ap
              (λ o.
                ok_or (filter_option (fl.ltb (fl.literal 0 1)) o) missing_segment_duration
                >>= by_template)
              h1
            ∙ ap
                (λ b.
                  ok_or (elim b [ true ↦ some d | false ↦ none ]) missing_segment_duration
                  >>= by_template)
                positive
            ∙ duration_segments-static u ctx end_number scale static h u64;
        each =
            numbers-static fl u (some end_number) ctx (end_number + 1 - u.start_number)
              (omega arith);
      }
