-- ===== src/Manifest/Sidx/Loading.antt =====
-- The whole way from the bytes of an index range to its segments (src/manifest/sidx/mod.rs).
use dashplay_rs.Prelude.{
  add_u64, ℕ, ◌+◌, ◌^◌, ◌<◌, ◌≤◌, ◌≡◌, refl, subst, Bool, true, false, some, List, [], ◌∷◌, ◌++◌,
  le→ltb, if◌then◌else◌, unwrap_or, length, Result, ok, err, arith,
}
use dashplay_rs.Bytes.{Bytes}
use dashplay_rs.Float.{F64}
use dashplay_rs.Mp4.Wire.{Box, size, encode_all}
use dashplay_rs.Manifest.Types.{ManifestError, ByteRange, TimelineSegment, sidx_parse}
use dashplay_rs.Manifest.Ranges.{parse_byte_range}
use dashplay_rs.Manifest.Sidx.Wire.{
  Index, encode_index, index_size, IndexFits, references_of, box_of,
}
use dashplay_rs.Manifest.Sidx.Locate.{max_scan_skip, find_sidx_offset}
use dashplay_rs.Manifest.Sidx.Scanning.{read_box_header_at, AllSkipped}
use dashplay_rs.Manifest.Sidx.Layout.{AllMedia, total_size, total_duration, Timeline}
use dashplay_rs.Manifest.Sidx.Load.{
  IndexSource, located, if_supported, locate, segments_at, with_offset, from_range, from_attribute,
  parse_sidx_index,
}
use dashplay_rs.Manifest.Sidx.Scanned.{
  placed, header-placed, length-placed, complete, parse-placed, reject_stream, attributes-base,
  parse_at_placed, segments_at-Timeline, scanned-Timeline,
}

-- In an exact range the `sidx` comes first.
locate_first :
    (i : Index) (rest : Bytes) (fuel range_start : ℕ)
    → IndexFits i
    → AllMedia (references_of i.entries)
    → index_size i ≤ max_scan_skip
    → locate fuel (encode_index i ++ rest) true range_start ≡ some (ok 0)
unfolding locate located if_supported find_sidx_offset
locate_first i rest fuel range_start fits media small = rw (
  reject_stream [] i rest tt small,
  header-placed [] rest i fits media,
  le→ltb (length (placed [] rest i fits media)) (index_size i)
      (omega (arith, length-placed [] rest i fits media)),
  complete [] rest i fits media range_start,
)

-- Where another box does, the range is refused.
refuse_first :
    (b : Box) (bs : List Box) (i : Index) (rest : Bytes) (fuel range_start : ℕ)
    → AllSkipped (b ∷ bs)
    → index_size i ≤ max_scan_skip
    → locate fuel (encode_all (b ∷ bs) ++ (encode_index i ++ rest)) true range_start
      ≡ some (err sidx_parse)
unfolding locate located if_supported find_sidx_offset
refuse_first b bs i rest fuel range_start (s, ss) small = rw (
  reject_stream (b ∷ bs) i rest (s, ss) small,
  read_box_header_at [] (size b) b.k0 b.k1 b.k2 b.k3
      ((b.payload ++ encode_all bs) ++ (encode_index i ++ rest)) (omega arith)
      (omega (arith, s.small)),
  s.other,
)

module _ (fl : F64) where
  not_located :
      (fuel : ℕ) (src : IndexSource) (bytes range : Bytes) (br : ByteRange) (exact : Bool)
      (e : ManifestError)
      → src.index_range ≡ some range
      → parse_byte_range range ≡ ok br
      → unwrap_or src.index_range_exact false ≡ exact
      → locate fuel bytes exact br.start ≡ some (err e)
      → parse_sidx_index fl fuel src bytes ≡ some (err e)
  unfolding parse_sidx_index from_attribute from_range with_offset
  not_located fuel src bytes range br exact e h1 h2 h3 found = rw (h1, h2, h3, found)

  -- What the range promises: with `indexRangeExact` the media begin behind the range, and a box
  -- before the `sidx` is refused; else they begin behind the `sidx`.
  abbrev pub Answer :
      Bool
      → ByteRange
      → List Box
      → Index
      → Result ManifestError (List (TimelineSegment fl.Value))
      → Type 0
  Answer true br [] i r =
      Timeline fl 1 (br.end + 1 + i.first_offset) i.earliest_presentation_time
        (references_of i.entries) r
  Answer true br (b ∷ bs) i r = r ≡ err sidx_parse
  Answer false br boxes i r =
      Timeline fl 1 (br.start + length (encode_all boxes) + index_size i + i.first_offset)
        i.earliest_presentation_time (references_of i.entries) r

  -- The bytes of an index range that hold other boxes, of printable types and at most 16 MiB each,
  -- then a `sidx` of at most 16 MiB, whose fields fit their widths, without nested boxes and empty
  -- references, and whatever follows it; the timescale is not zero, and the
  -- positions, times and numbers are below 2^64. With more fuel than there are boxes the call ends.
  -- It gives one segment for each reference, in order and without a gap or an overlap. The media
  -- begin `first_offset` bytes behind the `sidx`, or with `indexRangeExact` behind the range; in the
  -- latter case other boxes before the `sidx` are an error.
  pub parse_sidx_index-Timeline :
      (src : IndexSource) (range : Bytes) (br : ByteRange) (exact : Bool) (boxes : List Box)
      (i : Index) (rest : Bytes) (fuel : ℕ)
      → src.index_range ≡ some range
      → parse_byte_range range ≡ ok br
      → unwrap_or src.index_range_exact false ≡ exact
      → length boxes < fuel
      → AllSkipped boxes
      → IndexFits i
      → AllMedia (references_of i.entries)
      → index_size i ≤ max_scan_skip
      → 0 < unwrap_or src.timescale i.timescale
      → (if exact then br.end + 1 else br.start + length (encode_all boxes) + index_size i)
          + i.first_offset
          + total_size (references_of i.entries)
        < 2 ^ 64
      → i.earliest_presentation_time + total_duration (references_of i.entries) < 2 ^ 64
      → 1 + length (references_of i.entries) < 2 ^ 64
      → (r : Result ManifestError (List (TimelineSegment fl.Value))) × (parse_sidx_index fl fuel src
            (encode_all boxes ++ (encode_index i ++ rest))
          ≡ some r)
        × Answer exact br boxes i r
  parse_sidx_index-Timeline src range br false boxes i rest fuel h1 h2 h3 f s fits media small scale
        p t n =
      scanned-Timeline fl src range br boxes i rest fuel h1 h2 h3 f s fits media small scale p t n
  parse_sidx_index-Timeline src range br true [] i rest fuel h1 h2 h3 f s fits media small scale p t
        n =
      let bytes = encode_index i ++ rest in
      let origin : add_u64 br.end 1 ≡ br.end + 1 = omega arith in
      (
        segments_at fl src bytes 0 1 (add_u64 br.end 1) (box_of i),
        attributes-base fl fuel src bytes range br true 0 (box_of i) h1 h2 h3
            (locate_first i rest fuel br.start fits media small)
            (parse-placed [] rest i fits media),
        subst
            (λ o.
              Timeline fl 1 (o + i.first_offset) i.earliest_presentation_time
                (references_of i.entries)
                (segments_at fl src bytes 0 1 (add_u64 br.end 1) (box_of i)))
            origin
            (segments_at-Timeline fl src bytes 0 1 (add_u64 br.end 1) (box_of i) scale
              (parse_at_placed fl [] rest i fits) media n (omega (arith, origin)) t),
      )
  parse_sidx_index-Timeline src range br true (b ∷ bs) i rest fuel h1 h2 h3 f s fits media small
        scale p t n =
      (
        err sidx_parse,
        not_located fuel src (encode_all (b ∷ bs) ++ (encode_index i ++ rest)) range br true
            sidx_parse h1 h2 h3 (refuse_first b bs i rest fuel br.start s small),
        refl,
      )
