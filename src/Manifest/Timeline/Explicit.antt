-- ===== src/Manifest/Timeline/Explicit.antt =====
-- A `SegmentTimeline` and its segments (`segments_from_explicit_timeline`).
use dashplay_rs.Prelude.{
  ℕ, zero, suc, ℤ, pos, negsuc, add_u64, mul_u64, ◌+◌, ◌-◌, ◌/◌, ◌%◌, ◌^◌, Bool, not, ◌&&◌, Option,
  none, some, List, [], ◌∷◌, ◌++◌, length, ltb, leb, ◌==◌, if◌then◌else◌, unwrap_or, or_option,
  Result, ok, err, ◌>>=◌, and_then,
}
use dashplay_rs.Float.{F64}
use dashplay_rs.Manifest.Types.{
  ManifestError, TimelineSegment, zero_timescale, zero_timeline_segment_duration,
  invalid_timeline_segment_k, timeline_d_not_divisible_by_k, unbounded_segment_timeline_repeat,
  missing_availability_start_for_dynamic_template,
}
use dashplay_rs.Manifest.Timeline.{S, SegmentTemplate, TimelineBuildContext}

-- `MAX_EXPANSION`
abbrev pub max_expansion : ℕ
max_expansion = 1_000_000

-- What all entries share.
pub record Grid : Type 0 where
  pub timescale : ℕ
  pub presentation_time_offset : ℕ
  pub period_start : ℕ

-- `@k` of an entry, where the entry is valid.
unfoldable pub checked : S → Result ManifestError ℕ
checked s =
    let k = unwrap_or s.k 1 in
    if s.d == 0
    then err zero_timeline_segment_duration
    else if k == 0
    then err invalid_timeline_segment_k
    else if ltb 1 k && not (s.d % k == 0)
    then err timeline_d_not_divisible_by_k
    else ok k

module _ (fl : F64) where
  open fl use {Value}

  -- The segments so far, the number and the time of the next. The time is missing before the first
  -- entry only.
  pub record State : Type 0 where
    pub segments : List (TimelineSegment Value)
    pub current_number : ℕ
    pub current_time : Option ℕ

  -- The same within an entry.
  pub record Progress : Type 0 where
    pub segments : List (TimelineSegment Value)
    pub number : ℕ
    pub time : ℕ

  -- Seconds of a time since the presentation time offset.
  unfoldable pub seconds : Grid → ℕ → Value
  seconds g t = fl.div (fl.of_u64 (t - g.presentation_time_offset)) (fl.of_u64 g.timescale)

  -- The segment `sub` of the `k` of a sequence.
  unfoldable pub subsegment : Grid → ℕ → ℕ → ℕ → ℕ → ℕ → TimelineSegment Value
  subsegment g seq_start number d_per k sub = record {
    number = number;
    time = seq_start;
    duration = d_per;
    duration_s = fl.div (fl.of_u64 d_per) (fl.of_u64 g.timescale);
    presentation_time_s = seconds g (add_u64 seq_start (mul_u64 (sub - 1) d_per));
    sub_number = if ltb 1 k then some sub else none;
    resync_start_chunk = none;
    media_url = none;
    media_range = none;
  }

  unfoldable pub subsegments : Grid → ℕ → ℕ → ℕ → ℕ → ℕ → ℕ → List (TimelineSegment Value)
  subsegments g seq_start number d_per k sub zero = []
  subsegments g seq_start number d_per k sub (suc left) =
      subsegment g seq_start number d_per k sub
      ∷ subsegments g seq_start number d_per k (sub + 1) left

  -- What is pushed for one sequence.
  unfoldable pub emit_segment_sequence : Grid → ℕ → ℕ → ℕ → ℕ → List (TimelineSegment Value)
  emit_segment_sequence g seq_start number d_total k =
      subsegments g seq_start number (d_total / k) k 1 k

  -- `segments.len().saturating_add(k) > MAX_EXPANSION`
  abbrev pub is_full : ℕ → Progress → Bool
  is_full k p = ltb max_expansion (length p.segments + k)

  -- A sequence, and on to the next.
  unfoldable pub emitted : Grid → ℕ → ℕ → Progress → Progress
  emitted g d k p = record {
    segments = p.segments ++ emit_segment_sequence g p.time p.number d k;
    number = (p.number + 1) % 2 ^ 64;
    time = add_u64 p.time d;
  }

  unfoldable pub emit_once : Grid → ℕ → ℕ → Progress → Result ManifestError Progress
  emit_once g d k p =
      if is_full k p then err unbounded_segment_timeline_repeat else ok (emitted g d k p)

  -- `for _ in 0..=repeat_count { … }`
  unfoldable pub repeat_sequence : ℕ → Grid → ℕ → ℕ → Progress → Result ManifestError Progress
  repeat_sequence zero g d k p = ok p
  repeat_sequence (suc n) g d k p = emit_once g d k p >>= repeat_sequence n g d k

  pub data NegativeRepeatEnd : Type 0 where
    next_segment_t : ℕ → NegativeRepeatEnd
    mpd_seconds : Value → NegativeRepeatEnd

  -- The first `@t` behind an entry.
  unfoldable pub next_t : List S → Option ℕ
  next_t [] = none
  next_t (s ∷ ss) = or_option s.t (next_t ss)

  since_start : Option ℕ → Result ManifestError NegativeRepeatEnd
  since_start none = err missing_availability_start_for_dynamic_template
  since_start (some since) = ok (mpd_seconds (fl.as_secs since))

  -- `tail` are the entries behind the one that repeats.
  unfoldable pub negative_r_repeat_end :
      List S → TimelineBuildContext Value → Result ManifestError NegativeRepeatEnd
  unfolding since_start next_t
  negative_r_repeat_end tail ctx = elim (next_t tail) [
    | some t ↦ ok (next_segment_t t)
    | none ↦ elim ctx.period_window.end [
      | some end ↦ ok (mpd_seconds (fl.as_secs end))
      | none ↦ elim ctx.period_duration [
        | some d ↦ ok (mpd_seconds (fl.add (fl.as_secs ctx.period_window.start) (fl.as_secs d)))
        | none ↦
            if ctx.is_dynamic
            then since_start ctx.since_availability_start
            else err unbounded_segment_timeline_repeat
      ]
    ]
  ]

  unfoldable pub is_reached : Grid → NegativeRepeatEnd → ℕ → Bool
  is_reached g (next_segment_t cap) t = leb cap t
  is_reached g (mpd_seconds end_s) t =
      fl.leb (fl.sub end_s (fl.literal 1 1_000_000_000))
        (fl.add (fl.as_secs g.period_start) (seconds g t))

  -- A round of the loop of a negative `@r`: it ends, or goes on.
  pub data Turn : Type 0 where
    ends : Result ManifestError Progress → Turn
    moves : Progress → Turn

  unfoldable pub turn : Grid → NegativeRepeatEnd → ℕ → ℕ → Progress → Turn
  turn g end d k p =
      if is_full k p
      then ends (err unbounded_segment_timeline_repeat)
      else if is_reached g end p.time
      then ends (ok p)
      else moves (emitted g d k p)

  -- `loop { … }` on fuel; `none` is that it ran out.
  unfoldable pub repeat_until :
      ℕ → Grid → NegativeRepeatEnd → ℕ → ℕ → Progress → Option (Result ManifestError Progress)
  repeat_until zero g end d k p = none
  repeat_until (suc fuel) g end d k p = elim (turn g end d k p) [
    | ends r ↦ some r
    | moves q ↦ repeat_until fuel g end d k q
  ]

  unfoldable pub repeated :
      ℕ
      → Grid
      → TimelineBuildContext Value
      → List S
      → ℕ
      → ℕ
      → ℤ
      → Progress
      → Option (Result ManifestError Progress)
  repeated fuel g ctx tail d k (pos r) p = some (repeat_sequence (suc r) g d k p)
  repeated fuel g ctx tail d k (negsuc r) p =
      and_then (some (negative_r_repeat_end tail ctx)) λ end. repeat_until fuel g end d k p

  unfoldable pub entered : S → State → Progress
  entered s st = record {
    segments = st.segments;
    number = unwrap_or s.n st.current_number;
    time = unwrap_or (or_option s.t st.current_time) 0;
  }

  unfoldable pub left : Progress → State
  left p = record { segments = p.segments; current_number = p.number; current_time = some p.time }

  unfoldable pub expand_entry :
      ℕ
      → Grid
      → TimelineBuildContext Value
      → List S
      → S
      → State
      → Option (Result ManifestError State)
  expand_entry fuel g ctx tail s st = and_then (some (checked s)) λ k.
      and_then (repeated fuel g ctx tail s.d k (unwrap_or s.r (pos 0)) (entered s st))
        λ p. some (ok (left p))

  unfoldable pub expand_entries :
      ℕ → Grid → TimelineBuildContext Value → List S → State → Option (Result ManifestError State)
  expand_entries fuel g ctx [] st = some (ok st)
  expand_entries fuel g ctx (s ∷ ss) st =
      and_then (expand_entry fuel g ctx ss s st) (expand_entries fuel g ctx ss)

  unfoldable pub segments_from_explicit_timeline :
      ℕ
      → SegmentTemplate Value
      → List S
      → TimelineBuildContext Value
      → Option (Result ManifestError (List (TimelineSegment Value)))
  segments_from_explicit_timeline fuel st timeline ctx =
      let g : Grid = record {
        timescale = unwrap_or st.timescale 1;
        presentation_time_offset = unwrap_or st.presentation_time_offset 0;
        period_start = ctx.period_window.start;
      } in
      let start : State = record {
        segments = [];
        current_number = unwrap_or st.start_number 1;
        current_time = none;
      } in
      if g.timescale == 0
      then some (err zero_timescale)
      else and_then (expand_entries fuel g ctx timeline start) λ q. some (ok q.segments)
