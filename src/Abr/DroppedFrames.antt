-- ===== src/Abr/DroppedFrames.antt =====
-- The dropped-frames rule of the bitrate logic (src/abr/dropped_frames.rs).
pub mod Cap
pub mod Accounting
mod Examples
use dashplay_rs.Prelude.{
  ℕ, zero, suc, add_u64, ◌+◌, ◌-◌, min, Bool, true, false, not, ◌&&◌, ◌||◌, Option, none, some,
  List, [], ◌∷◌, ltb, ◌==◌, if◌then◌else◌,
}
use dashplay_rs.Float.{F64}
use dashplay_rs.Abr.Constraints.{QualityConstraints, forced_quality_index}

pub record QualityFrameStats : Type 0 where
  pub dropped_video_frames : ℕ
  pub total_video_frames : ℕ

-- `HashMap<usize, QualityFrameStats>` in the order of its keys, in which it is read.
abbrev pub ByQuality : Type 0
ByQuality = List (ℕ × QualityFrameStats)

unfoldable pub added : ℕ → ℕ → QualityFrameStats → QualityFrameStats
added dropped total stats = record {
  dropped_video_frames = add_u64 stats.dropped_video_frames dropped;
  total_video_frames = add_u64 stats.total_video_frames total;
}

abbrev pub no_frames : QualityFrameStats
no_frames = record { dropped_video_frames = 0; total_video_frames = 0 }

-- `entry(quality_index).or_default()`, and the interval added to it.
unfoldable pub attribute : ℕ → ℕ → ℕ → ByQuality → ByQuality
attribute q dropped total [] = (q, added dropped total no_frames) ∷ []
attribute q dropped total ((k, stats) ∷ rest) =
    let behind = attribute q dropped total rest in
    if q == k
    then (k, added dropped total stats) ∷ rest
    else if ltb q k
    then (q, added dropped total no_frames) ∷ (k, stats) ∷ rest
    else (k, stats) ∷ behind

-- The calls that change a history.
pub data Call : Type 0 where
  pushes : ℕ → ℕ → Call
  activates : ℕ → Call

module _ (fl : F64) where
  open fl use {Value}

  pub record DroppedFramesParams : Type 0 where
    pub minimum_sample_size : ℕ
    pub dropped_frames_percentage_threshold : Value

  -- `DroppedFramesParams::default`
  unfoldable pub default_params : DroppedFramesParams
  default_params = record {
    minimum_sample_size = 375;
    dropped_frames_percentage_threshold = fl.literal 15 100;
  }

  unfoldable pub sanitized : DroppedFramesParams → DroppedFramesParams
  unfolding default_params
  sanitized p =
      let threshold = p.dropped_frames_percentage_threshold in
      record {
        minimum_sample_size =
            if ltb 0 p.minimum_sample_size
            then p.minimum_sample_size
            else default_params.minimum_sample_size;
        dropped_frames_percentage_threshold =
            if fl.is_finite threshold
              && (fl.leb (fl.literal 0 1) threshold && fl.leb threshold (fl.literal 1 1))
            then threshold
            else default_params.dropped_frames_percentage_threshold;
      }

  -- `DroppedFramesHistoryInner`
  pub record History : Type 0 where
    pub params : DroppedFramesParams
    pub active_quality_index : Option ℕ
    pub last_dropped : ℕ
    pub last_total : ℕ
    pub has_baseline : Bool
    pub by_quality : ByQuality

  unfoldable pub with_params : DroppedFramesParams → History
  with_params p = record {
    params = sanitized p;
    active_quality_index = none;
    last_dropped = 0;
    last_total = 0;
    has_baseline = false;
    by_quality = [];
  }

  unfoldable pub set_active_quality : ℕ → History → History
  set_active_quality q h = record h { active_quality_index = some q }

  -- The interval is attributed to the active quality, where there is one.
  unfoldable pub attributed : Option ℕ → ℕ → ℕ → ByQuality → ByQuality
  attributed none dropped total by_quality = by_quality
  attributed (some q) dropped total by_quality = attribute q dropped total by_quality

  unfoldable pub push : ℕ → ℕ → History → History
  push dropped total h =
      let interval_dropped = dropped - h.last_dropped in
      let interval_total = total - h.last_total in
      let counted = record h { last_dropped = dropped; last_total = total } in
      if not h.has_baseline
      then record counted { has_baseline = true }
      else if ltb dropped h.last_dropped || ltb total h.last_total
      then counted
      else if interval_total == 0 && interval_dropped == 0
      then counted
      else record counted {
        by_quality = attributed h.active_quality_index interval_dropped interval_total h.by_quality;
      }

  -- More samples than the minimum, and too many of them dropped.
  unfoldable pub exceeds : DroppedFramesParams → QualityFrameStats → Bool
  exceeds p stats =
      ltb p.minimum_sample_size stats.total_video_frames
      && fl.ltb p.dropped_frames_percentage_threshold
          (fl.div (fl.of_u64 stats.dropped_video_frames) (fl.of_u64 stats.total_video_frames))

  unfoldable pub cap_of : DroppedFramesParams → ByQuality → Option ℕ
  cap_of p [] = none
  cap_of p ((q, stats) ∷ rest) =
      let behind = cap_of p rest in if not (q == 0) && exceeds p stats then some (q - 1) else behind

  unfoldable pub quality_cap : History → Option ℕ
  quality_cap h = cap_of h.params h.by_quality

  unfoldable pub under_cap : ℕ → Option ℕ → ℕ
  under_cap quality_index none = quality_index
  under_cap quality_index (some cap) = min quality_index cap

  -- A forced quality goes before the rule.
  unfoldable pub ruled : ℕ → Option ℕ → Option History → ℕ
  ruled quality_index (some forced) history = quality_index
  ruled quality_index none none = quality_index
  ruled quality_index none (some h) = under_cap quality_index (quality_cap h)

  unfoldable pub apply_dropped_frames_cap : ℕ → ℕ → QualityConstraints → Option History → ℕ
  apply_dropped_frames_cap quality_index ladder_len constraints history =
      if ladder_len == 0
      then 0
      else min (ruled quality_index (forced_quality_index ladder_len constraints) history)
          (ladder_len - 1)

  abbrev pub call : Call → History → History
  call (pushes dropped total) h = push dropped total h
  call (activates q) h = set_active_quality q h

  abbrev pub call_all : List Call → History → History
  call_all [] h = h
  call_all (c ∷ cs) h = call_all cs (call c h)
