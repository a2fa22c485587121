-- ===== src/Schedule/IndexFetch/Asking.antt =====
-- What a parse of the first bytes of an index answers where the scan fails
-- (src/manifest/sidx/mod.rs).
use dashplay_rs.Prelude.{
  unwrap_or, false, ℕ, ◌<◌, ◌≡◌, ap, ◌∙◌, none, some, ◌∷◌, ◌==◌, ok, err, arith,
}
use dashplay_rs.Bytes.{Bytes}
use dashplay_rs.Float.{F64}
use dashplay_rs.Manifest.Types.{ManifestError, ByteRange}
use dashplay_rs.Manifest.Ranges.{parse_byte_range}
use dashplay_rs.Manifest.Sidx.Locate.{
  looks_like_ebml_index, reject_unsupported_index_container, find_sidx_offset, scan_from,
}
use dashplay_rs.Manifest.Sidx.Load.{
  IndexSource, located, if_supported, locate, with_offset, from_range, from_attribute,
  parse_sidx_index, from_representation_index, or_representation, parse_sidx_index_for_segment_base,
}

-- A first byte below 0x1a is no EBML.
pub reject_first :
    (a : ℕ) (tail : Bytes) → a < 26 → reject_unsupported_index_container (a ∷ tail) ≡ ok tt
unfolding reject_unsupported_index_container looks_like_ebml_index
reject_first a tail h =
    let header : (a == 0x1a) ≡ false = ground arith in
    let cues : (a == 0x1c) ≡ false = ground arith in rw (header, cues)

module _ (fl : F64) (src : IndexSource) (range : Bytes) (br : ByteRange)
    (h1 : src.index_range ≡ some range) (h2 : parse_byte_range range ≡ ok br)
    (h3 : unwrap_or src.index_range_exact false ≡ false)
    (h5 : src.representation_index ≡ none) where
  pub same_file :
      (fuel : ℕ) (bytes : Bytes)
      → parse_sidx_index_for_segment_base fl fuel src bytes ≡ parse_sidx_index fl fuel src bytes
  unfolding parse_sidx_index_for_segment_base or_representation
  same_file fuel bytes =
      ap
        (or_representation fl (from_representation_index fl src bytes 1)
          (parse_sidx_index fl fuel src bytes))
        h5

  -- The scan of the bytes, where it fails, is what the call returns.
  pub failed_scan :
      (fuel : ℕ) (bytes : Bytes) (e : ManifestError)
      → reject_unsupported_index_container bytes ≡ ok tt
      → scan_from fuel bytes br.start 0 ≡ some (err e)
      → parse_sidx_index_for_segment_base fl fuel src bytes ≡ some (err e)
  unfolding parse_sidx_index from_attribute from_range with_offset locate if_supported located
      find_sidx_offset
  failed_scan fuel bytes e supported h = same_file fuel bytes ∙ rw (h1, h2, h3, supported, h)
