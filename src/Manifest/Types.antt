-- ===== src/Manifest/Types.antt =====
-- Segments, byte ranges and the errors of the manifest (src/manifest/types.rs,
-- src/manifest/error.rs).
use dashplay_rs.Prelude.{ℕ, Option}
use dashplay_rs.Bytes.{Bytes}

pub record ByteRange : Type 0 where
  pub start : ℕ
  pub end : ℕ

pub record TimelineSegment (R : Type 0) : Type 0 where
  pub number : ℕ
  pub time : ℕ
  pub duration : ℕ
  pub duration_s : R
  pub presentation_time_s : R
  pub sub_number : Option ℕ
  pub resync_start_chunk : Option ℕ
  pub media_url : Option Bytes
  pub media_range : Option ByteRange

-- `ManifestError`. The text of an error, and what an error of another library says, are left out.
pub data ManifestError : Type 0 where
  parse_error : ManifestError
  url_error : ManifestError
  not_loaded : ManifestError
  no_period : ManifestError
  missing_segment_template : ManifestError
  missing_segment_list : ManifestError
  missing_segment_base : ManifestError
  conflicting_segment_addressing : ManifestError
  invalid_byte_range : ManifestError
  missing_segment_base_index_range : ManifestError
  segment_base_index_not_loaded : ManifestError
  missing_segment_template_index_range : ManifestError
  missing_segment_template_index : ManifestError
  missing_representation_index_source_url : ManifestError
  segment_template_index_not_loaded : ManifestError
  missing_segment_template_index_vars : ManifestError
  sidx_parse : ManifestError
  incomplete_sidx_index : ℕ → ManifestError
  hierarchical_sidx_not_supported : ManifestError
  segment_list_url_timeline_mismatch : ManifestError
  empty_segment_list : ManifestError
  missing_initialization_template : ManifestError
  missing_media_template : ManifestError
  missing_segment_duration : ManifestError
  zero_timescale : ManifestError
  zero_timeline_segment_duration : ManifestError
  invalid_timeline_segment_k : ManifestError
  timeline_d_not_divisible_by_k : ManifestError
  missing_availability_start_for_dynamic_template : ManifestError
  missing_period_extent_for_static_template : ManifestError
  invalid_segment_template_end_number : ManifestError
  unbounded_segment_timeline_repeat : ManifestError
  xlink_error : ManifestError
