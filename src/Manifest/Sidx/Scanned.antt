-- ===== src/Manifest/Sidx/Scanned.antt =====
-- The scan of an index range, to the segments of the index (src/manifest/sidx/mod.rs).
use dashplay_rs.Prelude.{
  unwrap_or, Bool, if◌then◌else◌, false, add_u64, ℕ, ◌+◌, ◌/◌, ◌%◌, ◌^◌, ◌<◌, ◌≤◌, ◌≡◌, refl, sym,
  ap, ◌∙◌, subst, true, some, List, [], ◌∷◌, ◌++◌, le→ltb, ◌==◌, length, length-append, take, drop,
  drop-length, take-length, append-nil, Result, ok, arith,
}
use dashplay_rs.Bytes.{Bytes, be_bytes4, slice}
use dashplay_rs.Float.{F64}
use dashplay_rs.Mp4.Wire.{Box, size, encode_all}
use dashplay_rs.Manifest.Types.{ManifestError, ByteRange, TimelineSegment}
use dashplay_rs.Manifest.Ranges.{parse_byte_range}
use dashplay_rs.Manifest.Sidx.Parser.{SidxReference, SidxBox, sidx, parse}
use dashplay_rs.Manifest.Sidx.Wire.{
  Index, encode_fields, encode_index, index_size, IndexFits, references_of, box_of,
}
use dashplay_rs.Manifest.Sidx.RoundTrip.{parse-encode_index}
use dashplay_rs.Manifest.Sidx.Locate.{
  max_scan_skip, looks_like_ebml_index, reject_unsupported_index_container, read_box_header,
  find_sidx_offset, walk_reference, walk_references, walk_box, walk, ensure_index_segment_complete,
}
use dashplay_rs.Manifest.Sidx.Scanning.{read_box_header_at, AllSkipped, scan_from-finds}
use dashplay_rs.Manifest.Sidx.Expand.{parse_at}
use dashplay_rs.Manifest.Sidx.Layout.{AllMedia, total_size, total_duration, Timeline, blob-Timeline}
use dashplay_rs.Manifest.Sidx.Load.{
  IndexSource, located, if_supported, locate, segments_at, base_segments, with_offset, from_range,
  from_attribute, parse_sidx_index,
}

walk_references-media :
    (nested : ℕ → Result ManifestError ℕ) (bytes : Bytes) (range_start : ℕ)
    (rs : List SidxReference) (at : ℕ × ℕ)
    → AllMedia rs
    → walk_references nested bytes range_start rs at ≡ ok at
unfolding walk_references walk_reference
walk_references-media nested bytes range_start [] at h = refl
walk_references-media nested bytes range_start (r ∷ rs) (cursor, end) (typ, filled, media) =
    let test : (r.reference_type == 0) ≡ true = ground (arith, typ) in
    rw (test, walk_references-media nested bytes range_start rs (cursor, end) media)

-- An index without nested boxes, in the bytes behind others.
module _ (pre rest : Bytes) (i : Index) (fits : IndexFits i)
    (media : AllMedia (references_of i.entries)) where
  abbrev pub placed : Bytes
  placed = pre ++ (encode_index i ++ rest)

  pub header-placed : read_box_header placed (length pre) ≡ ok (index_size i, sidx)
  header-placed =
      read_box_header_at pre (index_size i) b's' b'i' b'd' b'x' (encode_fields i ++ rest)
        (omega arith) fits.size

  drop-placed : drop (length pre) placed ≡ encode_index i ++ rest
  drop-placed = drop-length pre (encode_index i ++ rest)

  slice-placed : slice placed (length pre) (index_size i) ≡ encode_index i
  slice-placed =
      ap (take (index_size i)) drop-placed
      ∙ ap (λ n. take n (encode_index i ++ rest))
          (let e : index_size i ≡ length (encode_index i) = omega arith in e)
      ∙ take-length (encode_index i) rest

  parse-slice : parse (slice placed (length pre) (index_size i)) ≡ ok (box_of i)
  parse-slice =
      ap parse (slice-placed ∙ sym (append-nil (encode_index i))) ∙ parse-encode_index i [] fits

  pub length-placed : length placed ≡ length pre + index_size i + length rest
  length-placed =
      length-append pre (encode_index i ++ rest)
      ∙ omega (arith, length-append (encode_index i) rest)

  pub complete :
      (range_start : ℕ) → ensure_index_segment_complete placed (length pre) range_start ≡ ok tt
  unfolding ensure_index_segment_complete walk walk_box
  complete range_start = rw (
    header-placed,
    le→ltb (length placed) (length pre + index_size i) (omega (arith, length-placed)),
    parse-slice,
    walk_references-media (walk 32 placed range_start) placed range_start (references_of i.entries)
        (length pre + index_size i, length pre + index_size i) media,
  )

  pub parse-placed : parse (drop (length pre) placed) ≡ ok (box_of i)
  parse-placed = ap parse drop-placed ∙ parse-encode_index i rest fits

-- Bytes that begin with a small size field are no EBML.
pub reject_small :
    (n : ℕ) (tail : Bytes)
    → n ≤ max_scan_skip
    → reject_unsupported_index_container (be_bytes4 n ++ tail) ≡ ok tt
unfolding reject_unsupported_index_container looks_like_ebml_index
reject_small n tail h =
    let header : (n / 2 ^ 24 % 256 == 0x1a) ≡ false = ground arith in
    let cues : (n / 2 ^ 24 % 256 == 0x1c) ≡ false = ground arith in rw (header, cues)

pub reject_stream :
    (boxes : List Box) (i : Index) (rest : Bytes)
    → AllSkipped boxes
    → index_size i ≤ max_scan_skip
    → reject_unsupported_index_container (encode_all boxes ++ (encode_index i ++ rest)) ≡ ok tt
reject_stream [] i rest s h = reject_small (index_size i) (sidx ++ (encode_fields i ++ rest)) h
reject_stream (b ∷ bs) i rest (s, ss) h =
    reject_small (size b)
      (b.k0 ∷ b.k1 ∷ b.k2 ∷ b.k3 ∷ ((b.payload ++ encode_all bs) ++ (encode_index i ++ rest)))
      s.small

find_stream :
    (boxes : List Box) (i : Index) (rest : Bytes) (fuel range_start : ℕ)
    → length boxes < fuel
    → AllSkipped boxes
    → IndexFits i
    → find_sidx_offset fuel (encode_all boxes ++ (encode_index i ++ rest)) false range_start
      ≡ some (ok (length (encode_all boxes)))
unfolding find_sidx_offset
find_stream boxes i rest fuel range_start f s fits =
    scan_from-finds boxes fuel range_start [] (encode_fields i) rest f s fits.size
    ∙ ap (λ n. some (ok n)) (omega arith)

locate_stream :
    (boxes : List Box) (i : Index) (rest : Bytes) (fuel range_start : ℕ)
    → length boxes < fuel
    → AllSkipped boxes
    → IndexFits i
    → AllMedia (references_of i.entries)
    → index_size i ≤ max_scan_skip
    → locate fuel (encode_all boxes ++ (encode_index i ++ rest)) false range_start
      ≡ some (ok (length (encode_all boxes)))
unfolding locate located if_supported
locate_stream boxes i rest fuel range_start f s fits media small = rw (
  reject_stream boxes i rest s small,
  find_stream boxes i rest fuel range_start f s fits,
  complete (encode_all boxes) rest i fits media range_start,
)

module _ (fl : F64) where
  pub parse_at_placed :
      (pre rest : Bytes) (i : Index)
      → IndexFits i
      → parse_at fl (pre ++ (encode_index i ++ rest)) (length pre) ≡ ok (box_of i)
  unfolding parse_at
  parse_at_placed pre rest i fits =
      let bytes = pre ++ (encode_index i ++ rest) in
      rw
        (le→ltb (length bytes) (length pre)
          (omega (arith, length-append pre (encode_index i ++ rest))))
        (ap parse (drop-length pre (encode_index i ++ rest)) ∙ parse-encode_index i rest fits)

  -- The attributes lead to the segments at the offset found.
  pub attributes-base :
      (fuel : ℕ) (src : IndexSource) (bytes range : Bytes) (br : ByteRange) (exact : Bool) (off : ℕ)
      (b : SidxBox)
      → src.index_range ≡ some range
      → parse_byte_range range ≡ ok br
      → unwrap_or src.index_range_exact false ≡ exact
      → locate fuel bytes exact br.start ≡ some (ok off)
      → parse (drop off bytes) ≡ ok b
      → parse_sidx_index fl fuel src bytes
        ≡ some (
            segments_at fl src bytes off 1
              (if exact then add_u64 br.end 1 else add_u64 (add_u64 br.start off) b.box_size)
              b)
  unfolding parse_sidx_index from_attribute from_range with_offset base_segments
  attributes-base fuel src bytes range br exact off b h1 h2 h3 found parsed =
      rw (h1, h2, h3, found, parsed)

  pub segments_at-Timeline :
      (src : IndexSource) (bytes : Bytes) (off start_number origin : ℕ) (b : SidxBox)
      → 0 < unwrap_or src.timescale b.timescale
      → parse_at fl bytes off ≡ ok b
      → AllMedia b.references
      → start_number + length b.references < 2 ^ 64
      → origin + b.first_offset + total_size b.references < 2 ^ 64
      → b.earliest_presentation_time + total_duration b.references < 2 ^ 64
      → Timeline fl start_number
          (origin + b.first_offset)
          b.earliest_presentation_time
          b.references
          (segments_at fl src bytes off start_number origin b)
  unfolding segments_at
  segments_at-Timeline src bytes off start_number origin b filled parsed media n p t =
      blob-Timeline fl _ off start_number b filled parsed media n p t

  -- Where the range is not exact.
  pub scanned-Timeline :
      (src : IndexSource) (range : Bytes) (br : ByteRange) (boxes : List Box) (i : Index)
      (rest : Bytes) (fuel : ℕ)
      → src.index_range ≡ some range
      → parse_byte_range range ≡ ok br
      → unwrap_or src.index_range_exact false ≡ false
      → length boxes < fuel
      → AllSkipped boxes
      → IndexFits i
      → AllMedia (references_of i.entries)
      → index_size i ≤ max_scan_skip
      → 0 < unwrap_or src.timescale i.timescale
      → br.start
          + length (encode_all boxes)
          + index_size i
          + i.first_offset
          + total_size (references_of i.entries)
        < 2 ^ 64
      → i.earliest_presentation_time + total_duration (references_of i.entries) < 2 ^ 64
      → 1 + length (references_of i.entries) < 2 ^ 64
      → (r : Result ManifestError (List (TimelineSegment fl.Value))) × (parse_sidx_index fl fuel src
            (encode_all boxes ++ (encode_index i ++ rest))
          ≡ some r)
        × Timeline fl 1
            (br.start + length (encode_all boxes) + index_size i + i.first_offset)
            i.earliest_presentation_time
            (references_of i.entries)
            r
  scanned-Timeline src range br boxes i rest fuel h1 h2 h3 f s fits media small scale p t n =
      let off = length (encode_all boxes) in
      let bytes = encode_all boxes ++ (encode_index i ++ rest) in
      let origin : add_u64 (add_u64 br.start off) (index_size i) ≡ br.start + off + index_size i =
        omega arith in
      let parsed = parse-placed (encode_all boxes) rest i fits media in
      (
        segments_at fl src bytes off 1 (add_u64 (add_u64 br.start off) (index_size i)) (box_of i),
        attributes-base fuel src bytes range br false off (box_of i) h1 h2 h3
            (locate_stream boxes i rest fuel br.start f s fits media small) parsed,
        subst
            (λ o.
              Timeline fl 1 (o + i.first_offset) i.earliest_presentation_time
                (references_of i.entries)
                (segments_at fl src bytes off 1 (add_u64 (add_u64 br.start off) (index_size i))
                  (box_of i)))
            origin
            (segments_at-Timeline src bytes off 1 (add_u64 (add_u64 br.start off) (index_size i))
              (box_of i) scale (parse_at_placed (encode_all boxes) rest i fits) media n
              (omega (arith, origin)) t),
      )
