-- ===== src/Manifest/Timeline/Contiguous.antt =====
-- A `SegmentTimeline` without gaps (src/manifest/timeline/mod.rs).
use dashplay_rs.Prelude.{
  ℕ, suc, ℤ, pos, ◌+◌, ◌*◌, ◌%◌, ◌^◌, ◌<◌, ◌≤◌, ◌≡◌, refl, sym, ap, ◌∙◌, subst, Bool, true, false,
  ◌&&◌, Option, none, some, List, [], ◌∷◌, unwrap_or, or_option, length, ltb, ◌==◌, Result, ok,
  and_then, arith,
}
use dashplay_rs.Float.{F64}
use dashplay_rs.Manifest.Types.{ManifestError, TimelineSegment}
use dashplay_rs.Manifest.Timeline.{S, SegmentTemplate, TimelineBuildContext}
use dashplay_rs.Manifest.Timeline.Explicit.{
  max_expansion, Grid, checked, State, Progress, repeat_sequence, repeated, entered, left,
  expand_entry, expand_entries, segments_from_explicit_timeline,
}
use dashplay_rs.Manifest.Timeline.Chains.{
  Chain, Grown, Grown-trans, Grown-moved, Grown-refl, repeat_sequence-IsRepeated,
}

-- Sequences of an entry, subsegments of a sequence, and the ticks and the segments of the entry.
abbrev pub repeats : Option ℤ → ℕ
repeats (some (pos r)) = r
repeats _ = 0

abbrev pub per_sequence : S → ℕ
per_sequence s = unwrap_or s.k 1

abbrev pub ticks_of : S → ℕ
ticks_of s = suc (repeats s.r) * s.d

abbrev pub segments_of : S → ℕ
segments_of s = suc (repeats s.r) * per_sequence s

abbrev pub total_ticks : List S → ℕ
total_ticks [] = 0
total_ticks (s ∷ ss) = ticks_of s + total_ticks ss

abbrev pub total_segments : List S → ℕ
total_segments [] = 0
total_segments (s ∷ ss) = segments_of s + total_segments ss

-- An entry with a duration that its subsegments divide, and a count of sequences.
pub record IsValid (s : S) : Type 0 where
  pub lasts : 0 < s.d
  pub some_each : 0 < per_sequence s
  pub divided : s.d % per_sequence s ≡ 0
  pub counted : unwrap_or s.r (pos 0) ≡ pos (repeats s.r)

-- Each entry begins where the one before it ends: without `@t`, or with just that `@t`.
abbrev pub AllFollow : ℕ → List S → Type 0
AllFollow at [] = Unit
AllFollow at (s ∷ ss) = IsValid s × (unwrap_or s.t at ≡ at) × AllFollow (at + ticks_of s) ss

follows :
    (t : Option ℕ) (at : ℕ) (o : Option ℕ)
    → o ≡ some at
    → unwrap_or t at ≡ at
    → unwrap_or (or_option t o) 0 ≡ at
follows none at o h e = ap (λ x. unwrap_or x 0) h
follows (some t) at o h e = e

starts : (t : Option ℕ) → unwrap_or (or_option t none) 0 ≡ unwrap_or t 0
starts none = refl
starts (some t) = refl

and_false : (b : Bool) → (b && false) ≡ false
and_false true = refl
and_false false = refl

checked-IsValid : (s : S) → IsValid s → checked s ≡ ok (per_sequence s)
unfolding checked
checked-IsValid s v =
    let lasts : (s.d == 0) ≡ false = ground (arith, v.lasts) in
    let each : (per_sequence s == 0) ≡ false = ground (arith, v.some_each) in
    let whole : (s.d % per_sequence s == 0) ≡ true = ground (arith, v.divided) in
    rw (lasts, each, whole, and_false (ltb 1 (per_sequence s)))

module _ (fl : F64) (fuel : ℕ) (g : Grid) (ctx : TimelineBuildContext fl.Value) where
  -- What an entry, or a list of them, leaves.
  record IsExpanded (from ticks n : ℕ) (st : State fl)
      (o : Option (Result ManifestError (State fl))) : Type 0 where
    last : State fl
    is : o ≡ some (ok last)
    time : last.current_time ≡ some (from + ticks)
    grown : Grown fl g from (from + ticks) n st.segments last.segments

  expand_entry-valid :
      (tail : List S) (s : S) (st : State fl) (q : Progress fl)
      → IsValid s
      → repeat_sequence fl (suc (repeats s.r)) g s.d (per_sequence s) (entered fl s st) ≡ ok q
      → expand_entry fl fuel g ctx tail s st ≡ some (ok (left fl q))
  unfolding expand_entry repeated
  expand_entry-valid tail s st q v h = rw (checked-IsValid s v, v.counted, repeated, h) refl

  expand_entry-IsExpanded :
      (tail : List S) (s : S) (st : State fl) (from : ℕ)
      → IsValid s
      → unwrap_or (or_option s.t st.current_time) 0 ≡ from
      → from + ticks_of s < 2 ^ 64
      → length st.segments + segments_of s ≤ max_expansion
      → IsExpanded from (ticks_of s) (segments_of s) st (expand_entry fl fuel g ctx tail s st)
  unfolding entered left
  expand_entry-IsExpanded tail s st from v at h room =
      let each =
        repeat_sequence-IsRepeated fl g s.d (per_sequence s) v.some_each v.divided
          (suc (repeats s.r)) (entered fl s st) (omega (arith, at)) room in
      record {
        last = left fl each.last;
        is = expand_entry-valid tail s st each.last v each.is;
        time = ap some (each.time ∙ ap (λ a. a + ticks_of s) at);
        grown =
            subst
              (λ a. Grown fl g a (a + ticks_of s) (segments_of s) st.segments each.last.segments) at
              each.grown;
      }

  expand_entries-cons :
      (s : S) (ss : List S) (st : State fl) (from a b n m : ℕ)
      (first : IsExpanded from a n st (expand_entry fl fuel g ctx ss s st))
      → IsExpanded (from + a) b m first.last (expand_entries fl fuel g ctx ss first.last)
      → IsExpanded from (a + b) (n + m) st (expand_entries fl fuel g ctx (s ∷ ss) st)
  unfolding expand_entries
  expand_entries-cons s ss st from a b n m first more =
      let end : from + a + b ≡ from + (a + b) = omega arith in
      record {
        last = more.last;
        is = ap (λ o. and_then o (expand_entries fl fuel g ctx ss)) first.is ∙ more.is;
        time = more.time ∙ ap some end;
        grown = Grown-moved fl g end refl (Grown-trans fl g first.grown more.grown);
      }

  expand_entries-IsExpanded :
      (ss : List S) (st : State fl) (from : ℕ)
      → st.current_time ≡ some from
      → AllFollow from ss
      → from + total_ticks ss < 2 ^ 64
      → length st.segments + total_segments ss ≤ max_expansion
      → IsExpanded from (total_ticks ss) (total_segments ss) st (expand_entries fl fuel g ctx ss st)
  expand_entries-IsExpanded [] st from at f h room =
      let end : from ≡ from + 0 = omega arith in
      record {
        last = st;
        is = unfold expand_entries in refl;
        time = at ∙ ap some end;
        grown = Grown-moved fl g end refl (Grown-refl fl g from st.segments);
      }
  expand_entries-IsExpanded (s ∷ ss) st from at (v, t, f) h room =
      let first =
        expand_entry-IsExpanded ss s st from v (follows s.t from st.current_time at t) (omega arith)
          (omega arith) in
      expand_entries-cons s ss st from (ticks_of s) (total_ticks ss) (segments_of s)
        (total_segments ss) first
        (expand_entries-IsExpanded ss first.last (from + ticks_of s) first.time f (omega arith)
          (omega (arith, first.grown.counts)))

module _ (fl : F64) where
  -- The segments of a timeline that begins and ends at the times given.
  pub record PlaysThrough (g : Grid) (from to n : ℕ)
      (o : Option (Result ManifestError (List (TimelineSegment fl.Value)))) : Type 0 where
    pub segments : List (TimelineSegment fl.Value)
    pub is : o ≡ some (ok segments)
    pub counts : length segments ≡ n
    pub chain : Chain fl g from segments to

  -- The times of a template.
  abbrev pub grid_of : SegmentTemplate fl.Value → TimelineBuildContext fl.Value → Grid
  grid_of st ctx = record {
    timescale = unwrap_or st.timescale 1;
    presentation_time_offset = unwrap_or st.presentation_time_offset 0;
    period_start = ctx.period_window.start;
  }

  -- A `SegmentTimeline` with entries that follow one another, within the limit and within 64 bits:
  -- it is expanded to one segment for each sequence, or `@k` of them, and each plays from where the
  -- one before it ends, from the first `@t` for as long as the entries last together.
  pub segments_from_explicit_timeline-PlaysThrough :
      (fuel : ℕ) (st : SegmentTemplate fl.Value) (ctx : TimelineBuildContext fl.Value) (s : S)
      (ss : List S)
      → 0 < unwrap_or st.timescale 1
      → AllFollow (unwrap_or s.t 0) (s ∷ ss)
      → unwrap_or s.t 0 + total_ticks (s ∷ ss) < 2 ^ 64
      → total_segments (s ∷ ss) ≤ max_expansion
      → PlaysThrough
          (grid_of st ctx)
          (unwrap_or s.t 0)
          (unwrap_or s.t 0 + total_ticks (s ∷ ss))
          (total_segments (s ∷ ss))
          (segments_from_explicit_timeline fl fuel st (s ∷ ss) ctx)
  unfolding segments_from_explicit_timeline
  segments_from_explicit_timeline-PlaysThrough fuel st ctx s ss scale (v, t, f) h room =
      let g = grid_of st ctx in
      let from = unwrap_or s.t 0 in
      let start : State fl = record {
        segments = [];
        current_number = unwrap_or st.start_number 1;
        current_time = none;
      } in
      let first =
        expand_entry-IsExpanded fl fuel g ctx ss s start from v (starts s.t) (omega arith)
          (omega arith) in
      let all =
        expand_entries-cons fl fuel g ctx s ss start from (ticks_of s) (total_ticks ss)
          (segments_of s) (total_segments ss) first
          (expand_entries-IsExpanded fl fuel g ctx ss first.last (from + ticks_of s) first.time f
            (omega arith) (omega (arith, first.grown.counts))) in
      let nonzero : (unwrap_or st.timescale 1 == 0) ≡ false = ground (arith, scale) in
      record {
        segments = all.last.segments;
        is = rw (nonzero, all.is) refl;
        counts = all.grown.counts ∙ omega arith;
        chain =
            subst (λ l. Chain fl g from l (from + total_ticks (s ∷ ss))) (sym all.grown.adds)
              all.grown.chain;
      }
