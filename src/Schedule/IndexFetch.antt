-- ===== src/Schedule/IndexFetch.antt =====
-- Fetching an index until it is complete (`fetch_and_parse_segment_base_index` of
-- src/schedule/segment_fetch.rs, for an index in the media file). The request is a parameter.
pub mod Asking
pub mod Rounds
pub mod Completing
pub mod Skipping
use dashplay_rs.Prelude.{
  add_u64, ℕ, zero, suc, ◌+◌, ◌-◌, Option, none, some, List, ◌++◌, ltb, if◌then◌else◌, length,
  Result, ok, err,
}
use dashplay_rs.Bytes.{Bytes}
use dashplay_rs.Float.{F64}
use dashplay_rs.Manifest.Types.{ManifestError, ByteRange, TimelineSegment, incomplete_sidx_index}
use dashplay_rs.Manifest.Sidx.Load.{IndexSource, Segments, parse_sidx_index_for_segment_base}

-- `PlayerError`: of the manifest, or of the request.
pub data PlayerError (E : Type 0) : Type 0 where
  manifest : ManifestError → PlayerError E
  request : E → PlayerError E

module _ (fl : F64) {E : Type 0} (fetch : ByteRange → Result E Bytes) where
  abbrev pub Fetched : Type 0
  Fetched = Result (PlayerError E) (List (TimelineSegment fl.Value))

  -- What a round does: it returns, or it asks for the bytes through an offset.
  pub data Round : Type 0 where
    stuck : Round
    returns : Fetched → Round
    extends : ℕ → Round

  unfoldable pub round_of : ℕ → Option (Segments fl) → Round
  round_of br_end none = stuck
  round_of br_end (some (ok segments)) = returns (ok segments)
  round_of br_end (some (err (incomplete_sidx_index need_end))) =
      if ltb br_end need_end
      then extends need_end
      else returns (err (manifest (incomplete_sidx_index need_end)))
  round_of br_end (some (err e)) = returns (err (manifest e))

  unfoldable pub round : IndexSource → ℕ → Bytes → Round
  round src br_end bytes =
      round_of br_end (parse_sidx_index_for_segment_base fl (length bytes + 1) src bytes)

  -- `loop { … }` on fuel; `none` is that it ran out.
  unfoldable pub extend_until_complete : ℕ → IndexSource → ℕ → Bytes → Option Fetched
  extend_until_complete zero src br_end bytes = none
  extend_until_complete (suc rounds) src br_end bytes = elim (round src br_end bytes) [
    | stuck ↦ none
    | returns r ↦ some r
    | extends need_end ↦ elim (fetch (record { start = add_u64 br_end 1; end = need_end })) [
      | err e ↦ some (err (request e))
      | ok more ↦ extend_until_complete rounds src need_end (bytes ++ more)
    ]
  ]

  unfoldable pub fetch_and_parse_segment_base_index : ℕ → IndexSource → ByteRange → Option Fetched
  fetch_and_parse_segment_base_index rounds src br = elim (fetch br) [
    | err e ↦ some (err (request e))
    | ok bytes ↦ extend_until_complete rounds src br.end bytes
  ]
