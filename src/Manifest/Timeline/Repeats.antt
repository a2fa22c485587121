-- ===== src/Manifest/Timeline/Repeats.antt =====
-- `S@r` of at least 0 as an abbreviation (src/manifest/timeline/mod.rs).
use dashplay_rs.Prelude.{
  ℕ, zero, suc, ℤ, pos, negsuc, ◌≡◌, refl, sym, ap, ◌∙◌, Option, none, some, List, [], ◌∷◌, ◌++◌,
  unwrap_or, or_option, Result, ok, err, ◌>>=◌, and_then, and_then_assoc, and_then-cong,
}
use dashplay_rs.Float.{F64}
use dashplay_rs.Manifest.Types.{ManifestError}
use dashplay_rs.Manifest.Timeline.{S, SegmentTemplate, TimelineBuildContext}
use dashplay_rs.Manifest.Timeline.Explicit.{
  Grid, checked, State, Progress, emit_once, repeat_sequence, repeated, entered, left, next_t,
  negative_r_repeat_end, expand_entry, expand_entries, segments_from_explicit_timeline,
}

-- An entry once, where it begins.
abbrev pub once : S → S
once s = record s { r = some (pos 0) }

-- An entry once more, behind itself.
abbrev pub again : S → S
again s = record s { t = none; n = none; r = some (pos 0) }

abbrev pub copies : ℕ → S → List S
copies zero s = []
copies (suc n) s = again s ∷ copies n s

-- The entry as one entry for each sequence. A negative `@r` has no number of sequences.
abbrev pub unrolled_by : S → ℤ → List S
unrolled_by s (pos r) = once s ∷ copies r s
unrolled_by s (negsuc r) = s ∷ []

abbrev pub unrolled : S → List S
unrolled s = unrolled_by s (unwrap_or s.r (pos 0))

abbrev pub unroll : List S → List S
unroll [] = []
unroll (s ∷ ss) = unrolled s ++ unroll ss

copies-again : (r : ℕ) (s : S) → copies r (again s) ≡ copies r s
copies-again zero s = refl
copies-again (suc r) s = ap (◌∷◌ (again s)) (copies-again r s)

next_t-copies :
    (fl : F64) (r : ℕ) (s : S) (ss : List S) → next_t fl (copies r s ++ ss) ≡ next_t fl ss
unfolding next_t
next_t-copies fl zero s ss = refl
next_t-copies fl (suc r) s ss = next_t-copies fl r s ss

next_t-unrolled :
    (fl : F64) (s : S) (r : ℤ) (ss : List S)
    → next_t fl (unrolled_by s r ++ ss) ≡ or_option s.t (next_t fl ss)
unfolding next_t
next_t-unrolled fl s (pos r) ss = ap (or_option s.t) (next_t-copies fl r s ss)
next_t-unrolled fl s (negsuc r) ss = refl

next_t-unroll : (fl : F64) (ss : List S) → next_t fl (unroll ss) ≡ next_t fl ss
unfolding next_t
next_t-unroll fl [] = refl
next_t-unroll fl (s ∷ ss) =
    next_t-unrolled fl s (unwrap_or s.r (pos 0)) (unroll ss)
    ∙ ap (or_option s.t) (next_t-unroll fl ss)

module _ (fl : F64) (fuel : ℕ) (g : Grid) (ctx : TimelineBuildContext fl.Value) where
  -- The state that an entry leaves, by the result of its sequences.
  abbrev finish : Result ManifestError (Progress fl) → Option (Result ManifestError (State fl))
  finish r = and_then (some r) λ p. some (ok (left fl p))

  abbrev sequences : S → ℕ → ℕ → State fl → Option (Result ManifestError (State fl))
  sequences s k r st = finish (repeat_sequence fl (suc r) g s.d k (entered fl s st))

  expand_entry-counted :
      (tail : List S) (s : S) (r : ℕ) (st : State fl)
      → unwrap_or s.r (pos 0) ≡ pos r
      → expand_entry fl fuel g ctx tail s st ≡ and_then (some (checked s)) (λ k. sequences s k r st)
  unfolding expand_entry repeated
  expand_entry-counted tail s r st h = rw (h, repeated)

  after_emit :
      (s : S) (k r : ℕ) (first : Result ManifestError (Progress fl))
      → finish (first >>= repeat_sequence fl (suc r) g s.d k)
        ≡ and_then (finish (first >>= repeat_sequence fl zero g s.d k)) (sequences (again s) k r)
  unfolding entered left repeat_sequence
  after_emit s k r (ok q) = refl
  after_emit s k r (err e) = refl

  one_more :
      (s : S) (k r : ℕ) (st : State fl)
      → sequences s k (suc r) st ≡ and_then (sequences s k 0 st) (sequences (again s) k r)
  unfolding repeat_sequence
  one_more s k r st = after_emit s k r (emit_once fl g s.d k (entered fl s st))

  checked-again :
      (s : S) (r : Option ℤ) → checked (record s { t = none; n = none; r = r }) ≡ checked s
  unfolding checked
  checked-again s r = refl

  -- A sequence more is an entry more.
  split_one :
      (s : S) (r : ℕ) (st : State fl)
      → and_then (some (checked s)) (λ k. sequences s k (suc r) st)
        ≡ and_then
            (and_then (some (checked s)) (λ k. sequences s k 0 st))
            (λ q. and_then (some (checked s)) (λ k. sequences (again s) k r q))
  split_one s r st = at (checked s)
    where
      at :
          (c : Result ManifestError ℕ)
          → and_then (some c) (λ k. sequences s k (suc r) st)
            ≡ and_then
                (and_then (some c) (λ k. sequences s k 0 st))
                (λ q. and_then (some c) (λ k. sequences (again s) k r q))
      at (ok k) = one_more s k r st
      at (err e) = refl

  abbrev counted : S → ℕ → State fl → Option (Result ManifestError (State fl))
  counted s r st = and_then (some (checked s)) λ k. sequences s k r st

  entries-cons :
      (s : S) (r : ℕ) (ss : List S) (st : State fl)
      → unwrap_or s.r (pos 0) ≡ pos r
      → expand_entries fl fuel g ctx (s ∷ ss) st
        ≡ and_then (counted s r st) (expand_entries fl fuel g ctx ss)
  unfolding expand_entries
  entries-cons s r ss st h = rw (expand_entry-counted ss s r st h, expand_entries)

  counted-once : (s : S) (st : State fl) → counted (once s) 0 st ≡ counted s 0 st
  unfolding checked entered
  counted-once s st = refl

  counted-suc :
      (s : S) (r : ℕ) (st : State fl)
      → counted s (suc r) st ≡ and_then (counted s 0 st) (counted (again s) r)
  unfolding checked
  counted-suc s r st = split_one s r st

  entries-unrolled :
      (s : S) (r : ℕ) (ss : List S) (st : State fl)
      → expand_entries fl fuel g ctx (once s ∷ (copies r s ++ ss)) st
        ≡ and_then (counted s r st) (expand_entries fl fuel g ctx ss)
  entries-unrolled s zero ss st =
      entries-cons (once s) 0 ss st refl
      ∙ ap (λ o. and_then o (expand_entries fl fuel g ctx ss)) (counted-once s st)
  entries-unrolled s (suc r) ss st =
      entries-cons (once s) 0 (again s ∷ (copies r s ++ ss)) st refl
      ∙ ap (λ o. and_then o (expand_entries fl fuel g ctx (again s ∷ (copies r s ++ ss))))
          (counted-once s st)
      ∙ and_then-cong (counted s 0 st) (λ q.
        ap (λ l. expand_entries fl fuel g ctx (again s ∷ (l ++ ss)) q) (sym (copies-again r s))
        ∙ entries-unrolled (again s) r ss q)
      ∙ sym
          (and_then_assoc (counted s 0 st) (counted (again s) r) (expand_entries fl fuel g ctx ss))
      ∙ ap (λ o. and_then o (expand_entries fl fuel g ctx ss)) (sym (counted-suc s r st))

  negative_r_repeat_end-tail :
      (tail tail' : List S)
      → next_t fl tail ≡ next_t fl tail'
      → negative_r_repeat_end fl tail ctx ≡ negative_r_repeat_end fl tail' ctx
  unfolding negative_r_repeat_end
  negative_r_repeat_end-tail tail tail' h = rw (h, negative_r_repeat_end) refl

  repeated-tail :
      (tail tail' : List S) (d k : ℕ) (r : ℤ) (p : Progress fl)
      → next_t fl tail ≡ next_t fl tail'
      → repeated fl fuel g ctx tail d k r p ≡ repeated fl fuel g ctx tail' d k r p
  unfolding repeated
  repeated-tail tail tail' d k (pos r) p h = refl
  repeated-tail tail tail' d k (negsuc r) p h = rw (negative_r_repeat_end-tail tail tail' h) refl

  -- What stands behind an entry matters to it only by the first `@t`.
  expand_entry-tail :
      (s : S) (tail tail' : List S) (st : State fl)
      → next_t fl tail ≡ next_t fl tail'
      → expand_entry fl fuel g ctx tail s st ≡ expand_entry fl fuel g ctx tail' s st
  unfolding expand_entry
  expand_entry-tail s tail tail' st h = and_then-cong (some (checked s)) λ k.
      ap (λ o. and_then o (λ p. some (ok (left fl p))))
        (repeated-tail tail tail' s.d k (unwrap_or s.r (pos 0)) (entered fl s st) h)

  entries-unrolled_by :
      (s : S) (r : ℤ) (ss : List S) (st : State fl)
      → unwrap_or s.r (pos 0) ≡ r
      → ((q : State fl)
          → expand_entries fl fuel g ctx (unroll ss) q ≡ expand_entries fl fuel g ctx ss q)
      → expand_entries fl fuel g ctx (unrolled_by s r ++ unroll ss) st
        ≡ expand_entries fl fuel g ctx (s ∷ ss) st
  unfolding expand_entries
  entries-unrolled_by s (pos r) ss st h more =
      entries-unrolled s r (unroll ss) st
      ∙ and_then-cong (counted s r st) more
      ∙ sym (entries-cons s r ss st h)
  entries-unrolled_by s (negsuc r) ss st h more =
      ap (λ o. and_then o (expand_entries fl fuel g ctx (unroll ss)))
        (expand_entry-tail s (unroll ss) ss st (next_t-unroll fl ss))
      ∙ and_then-cong (expand_entry fl fuel g ctx ss s st) more

  entries-unroll :
      (ss : List S) (st : State fl)
      → expand_entries fl fuel g ctx (unroll ss) st ≡ expand_entries fl fuel g ctx ss st
  entries-unroll [] st = refl
  entries-unroll (s ∷ ss) st =
      entries-unrolled_by s (unwrap_or s.r (pos 0)) ss st refl (entries-unroll ss)

module _ (fl : F64) where
  -- A `SegmentTimeline` in which each entry with a repeat count is written out, one entry for each
  -- sequence, gives the same segments, or the same error: whatever the entries, their times,
  -- numbers, negative repeat counts and errors are.
  pub segments_from_explicit_timeline-unroll :
      (fuel : ℕ) (st : SegmentTemplate fl.Value) (timeline : List S)
      (ctx : TimelineBuildContext fl.Value)
      → segments_from_explicit_timeline fl fuel st (unroll timeline) ctx
        ≡ segments_from_explicit_timeline fl fuel st timeline ctx
  unfolding segments_from_explicit_timeline
  segments_from_explicit_timeline-unroll fuel st timeline ctx =
      let g : Grid = record {
        timescale = unwrap_or st.timescale 1;
        presentation_time_offset = unwrap_or st.presentation_time_offset 0;
        period_start = ctx.period_window.start;
      } in
      rw
        (entries-unroll fl fuel g ctx timeline (record {
          segments = [];
          current_number = unwrap_or st.start_number 1;
          current_time = none;
        }))
        refl
