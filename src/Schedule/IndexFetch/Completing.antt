-- ===== src/Schedule/IndexFetch/Completing.antt =====
-- The rounds of the fetch on the beginning of an index (src/schedule/segment_fetch.rs).
use dashplay_rs.Prelude.{
  unwrap_or, false, ℕ, zero, suc, ◌+◌, ◌-◌, ◌/◌, ◌%◌, ◌^◌, ◌<◌, ◌≤◌, ◌≡◌, refl, sym, ap, ◌∙◌, subst,
  Option, none, some, List, [], ◌∷◌, ◌++◌, lt_or_le, inl, inr, length, length-append, length-take,
  take, take_past, Result, ok, err, arith,
}
use dashplay_rs.Bytes.{Bytes, be_bytes4}
use dashplay_rs.Float.{F64}
use dashplay_rs.Manifest.Types.{ManifestError, ByteRange, TimelineSegment, incomplete_sidx_index}
use dashplay_rs.Manifest.Ranges.{parse_byte_range}
use dashplay_rs.Manifest.Sidx.Parser.{sidx}
use dashplay_rs.Manifest.Sidx.Wire.{
  Index, encode_fields, encode_index, index_size, IndexFits, references_of,
}
use dashplay_rs.Manifest.Sidx.Locate.{
  last_of, header_end, max_scan_skip, reject_unsupported_index_container, scan_from,
}
use dashplay_rs.Manifest.Sidx.Scanning.{round_waits, round_short, scan-ends}
use dashplay_rs.Manifest.Sidx.Layout.{AllMedia, total_size, total_duration, Timeline, Tiles}
use dashplay_rs.Manifest.Sidx.Load.{
  IndexSource, parse_sidx_index, parse_sidx_index_for_segment_base,
}
use dashplay_rs.Manifest.Sidx.Scanned.{scanned-Timeline}
use dashplay_rs.Schedule.IndexFetch.Asking.{reject_first, same_file, failed_scan}
use dashplay_rs.Schedule.IndexFetch.Rounds.{serve, returned, extended, first_request}
use dashplay_rs.Schedule.IndexFetch.{
  PlayerError, extend_until_complete, fetch_and_parse_segment_base_index,
}

-- An index at the start of its range, of which `n` bytes are there.
module _ (fl : F64) (src : IndexSource) (range : Bytes) (br : ByteRange) (i : Index) (media : Bytes)
    (h1 : src.index_range ≡ some range) (h2 : parse_byte_range range ≡ ok br)
    (h3 : unwrap_or src.index_range_exact false ≡ false) (h5 : src.representation_index ≡ none)
    (fits : IndexFits i) (small : index_size i ≤ max_scan_skip)
    (position : br.start + index_size i < 2 ^ 64) where
  abbrev pub stream : Bytes
  stream = encode_index i ++ media

  size_least : 8 < index_size i
  size_least = omega arith

  stream_length : length stream ≡ index_size i + length media
  stream_length = length-append (encode_index i) media ∙ omega arith

  taken : (n : ℕ) → n ≤ index_size i → length (take n stream) ≡ n
  taken n h = length-take n stream ∙ omega (arith, stream_length)

  begun : (n : ℕ) → 0 < n → (tail : Bytes) × (take n stream ≡ index_size i / 2 ^ 24 % 256 ∷ tail)
  begun zero h = absurd (omega arith)
  begun (suc n) h = (_, refl)

  supported : (n : ℕ) → 0 < n → reject_unsupported_index_container (take n stream) ≡ ok tt
  supported n h =
      let (tail, e) = begun n h in
      ap reject_unsupported_index_container e
      ∙ reject_first (index_size i / 2 ^ 24 % 256) tail (omega arith)

  -- What the call answers on the first bytes of the index: the bytes through its header are asked
  -- for, then those through its end.
  asks_header :
      (n fuel : ℕ)
      → 0 < n
      → n < 8
      → parse_sidx_index_for_segment_base fl (suc fuel) src (take n stream)
        ≡ some (err (incomplete_sidx_index (br.start + 7)))
  asks_header n fuel some_there short =
      failed_scan fl src range br h1 h2 h3 h5 (suc fuel) (take n stream) _ (supported n some_there)
        (scan-ends fuel (take n stream) br.start 0 _ (
          round_short br.start [] (take n stream) (omega (arith, taken n, size_least))
            (omega (arith, taken n, size_least))))
      ∙ ap (λ e. some (err (incomplete_sidx_index e)))
          (let e : header_end br.start 0 ≡ br.start + 7 = omega (arith, size_least) in e)

  partial :
      (k : ℕ)
      → take (8 + k) stream
        ≡ be_bytes4 (index_size i) ++ (sidx ++ take k (encode_fields i ++ media))
  partial k = take_past (be_bytes4 (index_size i) ++ sidx) (encode_fields i ++ media) k

  asks_rest :
      (n fuel : ℕ)
      → 8 ≤ n
      → n < index_size i
      → parse_sidx_index_for_segment_base fl (suc fuel) src (take n stream)
        ≡ some (err (incomplete_sidx_index (br.start + index_size i - 1)))
  asks_rest n fuel long short =
      let k = n - 8 in
      let e : n ≡ 8 + k = omega arith in
      let here = take k (encode_fields i ++ media) in
      let kept : length here ≡ k =
        length-take k (encode_fields i ++ media)
        ∙ omega (arith, length-append (encode_fields i) media) in
      failed_scan fl src range br h1 h2 h3 h5 (suc fuel) (take n stream) _
        (supported n (omega arith))
        (ap (λ x. scan_from (suc fuel) x br.start 0) (ap (λ m. take m stream) e ∙ partial k)
          ∙ scan-ends fuel _ br.start 0 _
              (round_waits br.start [] (index_size i) here (omega (arith, kept)) fits.size))
      ∙ ap (λ x. some (err (incomplete_sidx_index x)))
          (let x : last_of br.start 0 (index_size i) ≡ br.start + index_size i - 1 = omega arith in
            x)

  module _ (rounds : ℕ) (one_segment_each : AllMedia (references_of i.entries))
      (scale : 0 < unwrap_or src.timescale i.timescale)
      (room : br.start + index_size i + i.first_offset + total_size (references_of i.entries)
        < 2 ^ 64)
      (time : i.earliest_presentation_time + total_duration (references_of i.entries) < 2 ^ 64)
      (numbers : 1 + length (references_of i.entries) < 2 ^ 64) (before : Bytes)
      (at : length before ≡ br.start) where
    -- All of the index is there.
    answers :
        (n fuel : ℕ)
        → index_size i ≤ n
        → (r : Result ManifestError (List (TimelineSegment fl.Value)))
          × (parse_sidx_index_for_segment_base fl (suc fuel) src (take n stream) ≡ some r)
          × Timeline fl 1
              (br.start + index_size i + i.first_offset)
              i.earliest_presentation_time
              (references_of i.entries)
              r
    answers n fuel all =
        let k = n - index_size i in
        let e : n ≡ length (encode_index i) + k = omega arith in
        let here : take n stream ≡ encode_index i ++ take k media =
          ap (λ m. take m stream) e ∙ take_past (encode_index i) media k in
        let (r, is, line) =
          scanned-Timeline fl src range br [] i (take k media) (suc fuel) h1 h2 h3 (omega arith) tt
            fits one_segment_each small scale (omega arith) time numbers in
        (
          r,
          same_file fl src range br h1 h2 h3 h5 (suc fuel) (take n stream)
              ∙ ap (parse_sidx_index fl (suc fuel) src) here
              ∙ is,
          subst (λ p. Timeline fl 1 p i.earliest_presentation_time (references_of i.entries) r)
              (omega arith) line,
        )

    module _ (E : Type 0) where
      abbrev server : ByteRange → Result E Bytes
      server = serve fl src br E before stream at

      -- The fetch has returned all segments.
      pub record Completed (x : Option (Result (PlayerError E) (List (TimelineSegment fl.Value))))
          : Type 0 where
        pub segments : List (TimelineSegment fl.Value)
        pub is : x ≡ some (ok segments)
        pub tiles :
            Tiles 1
              (br.start + index_size i + i.first_offset)
              i.earliest_presentation_time
              (references_of i.entries)
              segments

      completes_whole :
          (n end rounds : ℕ)
          → index_size i ≤ n
          → Completed (extend_until_complete fl server (suc rounds) src end (take n stream))
      completes_whole n end rounds all =
          let (r, is, line) = answers n (length (take n stream)) all in
          record {
            segments = line.segments;
            is =
                returned fl src br E before stream at n end rounds line.segments
                  (is ∙ ap some line.is);
            tiles = line.tiles;
          }

      completes_rest :
          (n end rounds : ℕ)
          → end + 1 ≡ br.start + n
          → 8 ≤ n
          → Completed (extend_until_complete fl server (suc (suc rounds)) src end (take n stream))
      completes_rest n end rounds e long = elim (lt_or_le n (index_size i)) [
        | inr all ↦ completes_whole n end (suc rounds) all
        | inl short ↦
            let need = br.start + index_size i - 1 in
            subst Completed
              (sym (
                extended fl src br E before stream at n end need (suc rounds) e (omega arith)
                  (omega arith) (asks_rest n (length (take n stream)) long short)))
              (completes_whole (need + 1 - br.start) need rounds (omega arith))
      ]

      completes :
          (n end rounds : ℕ)
          → end + 1 ≡ br.start + n
          → 0 < n
          → Completed
              (extend_until_complete fl server (suc (suc (suc rounds))) src end (take n stream))
      completes n end rounds e begun' = elim (lt_or_le n 8) [
        | inr long ↦ completes_rest n end (suc rounds) e long
        | inl short ↦
            let need = br.start + 7 in
            subst Completed
              (sym (
                extended fl src br E before stream at n end need (suc (suc rounds)) e (omega arith)
                  (omega (arith, size_least))
                  (asks_header n (length (take n stream)) begun' short)))
              (completes_rest (need + 1 - br.start) need rounds (omega arith) (omega arith))
      ]

      -- A server that has the file, and an index of at most 16 MiB, whose fields fit their
      -- widths, without nested boxes and empty references, at the start of the range. The range is not `indexRangeExact`, there is no
      -- `RepresentationIndex`, the timescale is not zero, and the positions, times and numbers are
      -- below 2^64. However short such a range is, three rounds are enough for the fetch to have all
      -- of the index, and it returns one segment for each reference, without a gap or an overlap.
      pub fetch_and_parse_segment_base_index-Completed :
          br.start ≤ br.end
          → Completed (fetch_and_parse_segment_base_index fl server (suc (suc (suc rounds))) src br)
      fetch_and_parse_segment_base_index-Completed h =
          subst Completed
            (sym (first_request fl src br E before stream at (suc (suc (suc rounds)))))
            (completes (br.end - br.start + 1) br.end rounds (omega arith) (omega arith))
