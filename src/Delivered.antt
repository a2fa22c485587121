-- ===== src/Delivered.antt =====
-- Which fragments of a stream have been emitted (src/delivered_segments.rs). A hash set is a
-- list of its members; the order is never looked at.
pub mod Tracking
mod Examples
use dashplay_rs.Prelude.{
  ℕ, zero, suc, ◌+◌, min, Bool, true, false, not, ◌&&◌, ◌||◌, Option, none, some, List, [], ◌∷◌,
  ◌==◌, if◌then◌else◌, length, drop,
}
use dashplay_rs.Bytes.{Bytes, eq_bytes}
use dashplay_rs.Float.{F64}
use dashplay_rs.Abr.Constraints.{eq_option}
use dashplay_rs.Manifest.Types.{TimelineSegment}

pub record SegmentKey : Type 0 where
  pub number : ℕ
  pub time : ℕ
  pub sub_number : Option ℕ

abbrev pub key_of : {R : Type 0} → TimelineSegment R → SegmentKey
key_of seg = record { number = seg.number; time = seg.time; sub_number = seg.sub_number }

abbrev pub eq_key : SegmentKey → SegmentKey → Bool
eq_key a b = a.number == b.number && a.time == b.time && eq_option a.sub_number b.sub_number

abbrev pub has_key : SegmentKey → List SegmentKey → Bool
has_key k [] = false
has_key k (x ∷ xs) = eq_key k x || has_key k xs

abbrev pub has_url : Bytes → List Bytes → Bool
has_url u [] = false
has_url u (x ∷ xs) = eq_bytes u x || has_url u xs

pub record DeliveredSegmentTracker (R : Type 0) : Type 0 where
  pub keys : List SegmentKey
  pub media_urls : List Bytes
  pub last_end_s : R
  pub last_abs_end_s : R
  pub active_period_start_s : R

-- `self.media_urls.contains(url)` where the segment has a URL.
unfoldable pub known_url : Option Bytes → List Bytes → Bool
known_url none urls = false
known_url (some u) urls = has_url u urls

unfoldable pub with_url : Option Bytes → List Bytes → List Bytes
with_url none urls = urls
with_url (some u) urls = u ∷ urls

module _ (fl : F64) where
  open fl use {Value, literal, ltb, leb, add, sub, abs}

  abbrev pub Segment : Type 0
  Segment = TimelineSegment Value

  abbrev pub Tracker : Type 0
  Tracker = DeliveredSegmentTracker Value

  -- `1e-9`
  abbrev pub tolerance : Value
  tolerance = literal 1 1_000_000_000

  unfoldable pub reset : Tracker → Tracker
  reset t = record {
    keys = [];
    media_urls = [];
    last_end_s = literal 0 1;
    last_abs_end_s = literal 0 1;
    active_period_start_s = literal 0 1;
  }

  unfoldable pub soft_reset : Tracker → Tracker
  soft_reset t = record t { keys = []; last_end_s = literal 0 1 }

  unfoldable pub seg_end_s : Segment → Value
  seg_end_s seg = add seg.presentation_time_s seg.duration_s

  -- The period is not the one that the keys belong to.
  unfoldable pub other_period : Value → Value → Bool
  other_period period_start_s active = ltb tolerance (abs (sub period_start_s active))

  unfoldable pub is_delivered : Segment → Value → Tracker → Bool
  is_delivered seg period_start_s t =
      if known_url seg.media_url t.media_urls
      then true
      else if ltb (add (add period_start_s seg.presentation_time_s) tolerance) t.last_abs_end_s
      then true
      else if other_period period_start_s t.active_period_start_s
      then false
      else has_key (key_of seg) t.keys || leb (seg_end_s seg) (add t.last_end_s tolerance)

  -- The loop of `advance_start_index` over the segments from the index on.
  unfoldable pub skipped : List Segment → Value → Tracker → ℕ
  skipped [] period_start_s t = 0
  skipped (seg ∷ segs) period_start_s t =
      let rest = skipped segs period_start_s t in
      if is_delivered seg period_start_s t then suc rest else 0

  unfoldable pub advance_start_index : List Segment → ℕ → Value → Tracker → ℕ
  advance_start_index segments start_idx period_start_s t =
      let i = min start_idx (length segments) in i + skipped (drop i segments) period_start_s t

  unfoldable pub enter_period : Value → Tracker → Tracker
  enter_period period_start_s t =
      if other_period period_start_s t.active_period_start_s
      then record t { keys = []; last_end_s = literal 0 1; active_period_start_s = period_start_s }
      else t

  unfoldable pub mark_delivered : Segment → Value → Tracker → Tracker
  mark_delivered seg period_start_s t =
      let d = enter_period period_start_s t in
      record d {
        keys = key_of seg ∷ d.keys;
        media_urls = with_url seg.media_url d.media_urls;
        last_end_s = fl.max d.last_end_s (seg_end_s seg);
        last_abs_end_s = fl.max d.last_abs_end_s (add period_start_s (seg_end_s seg));
      }
