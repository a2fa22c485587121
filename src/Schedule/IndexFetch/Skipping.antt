-- ===== src/Schedule/IndexFetch/Skipping.antt =====
-- The fetch of an index with other boxes before the `sidx` (src/schedule/segment_fetch.rs).
use dashplay_rs.Prelude.{
  ℕ, suc, ◌+◌, ◌-◌, ◌^◌, ◌<◌, ◌≤◌, ◌≡◌, sym, ap, ap₂, ◌∙◌, false, none, some, List, [], ◌∷◌, ◌++◌,
  unwrap_or, length, length-append, length-take, take, take-length, take_past, append-nil, Result,
  ok, err, arith,
}
use dashplay_rs.Bytes.{Bytes, be_bytes4}
use dashplay_rs.Float.{F64}
use dashplay_rs.Manifest.Types.{ByteRange, incomplete_sidx_index, sidx_parse}
use dashplay_rs.Manifest.Ranges.{parse_byte_range}
use dashplay_rs.Manifest.Sidx.Locate.{
  last_of, max_scan_skip, reject_unsupported_index_container, scan_from,
}
use dashplay_rs.Manifest.Sidx.Scanning.{
  IsSkipped, AllSkipped, round_cut, round_skips, round_end, scan-ends, scan-moves,
}
use dashplay_rs.Manifest.Sidx.Passing.{length-encode_all, scan_from-passes}
use dashplay_rs.Manifest.Sidx.Scanned.{reject_small}
use dashplay_rs.Manifest.Sidx.Load.{IndexSource, parse_sidx_index_for_segment_base}
use dashplay_rs.Mp4.Wire.{Box, kind, size, encode, encode_all}
use dashplay_rs.Schedule.IndexFetch.Asking.{failed_scan}
use dashplay_rs.Schedule.IndexFetch.Rounds.{serve, asked, gives_up, extended, first_request}
use dashplay_rs.Schedule.IndexFetch.{
  manifest, extends, round, extend_until_complete, fetch_and_parse_segment_base_index,
}

-- Bytes that begin with a box that the scan passes over are no EBML.
reject_boxes :
    (boxes : List Box) (b : Box) (here : Bytes)
    → AllSkipped boxes
    → size b ≤ max_scan_skip
    → reject_unsupported_index_container
        (encode_all boxes ++ (be_bytes4 (size b) ++ (kind b ++ here)))
      ≡ ok tt
reject_boxes [] b here s h = reject_small (size b) (kind b ++ here) h
reject_boxes (c ∷ cs) b here (s, ss) h =
    reject_small (size c)
      (c.k0
        ∷ c.k1
        ∷ c.k2
        ∷ c.k3
        ∷ ((c.payload ++ encode_all cs) ++ (be_bytes4 (size b) ++ (kind b ++ here))))
      s.small

-- Boxes before a box that the range cuts off.
module _ (fl : F64) (src : IndexSource) (range : Bytes) (br : ByteRange) (boxes : List Box)
    (b : Box) (behind : Bytes) (h1 : src.index_range ≡ some range)
    (h2 : parse_byte_range range ≡ ok br) (h3 : unwrap_or src.index_range_exact false ≡ false)
    (h5 : src.representation_index ≡ none) (passed : AllSkipped boxes) (skipped : IsSkipped b)
    (position : br.start + length (encode_all boxes) + size b < 2 ^ 64) where
  abbrev pub stream : Bytes
  stream = encode_all boxes ++ (encode b ++ behind)

  abbrev tail_of : Bytes
  tail_of = b.payload ++ behind

  -- The bytes through the header of the box, and `here` of its payload.
  abbrev begun : Bytes → Bytes
  begun here = encode_all boxes ++ (be_bytes4 (size b) ++ (kind b ++ here))

  partial : (k : ℕ) → take (length (encode_all boxes) + (8 + k)) stream ≡ begun (take k tail_of)
  partial k =
      take_past (encode_all boxes) (encode b ++ behind) (8 + k)
      ∙ ap (λ x. encode_all boxes ++ x) (take_past (be_bytes4 (size b) ++ kind b) tail_of k)

  supported : (here : Bytes) → reject_unsupported_index_container (begun here) ≡ ok tt
  supported here = reject_boxes boxes b here passed skipped.small

  -- The bytes through the end of the box are asked for.
  asks_box :
      (k fuel : ℕ)
      → k < length b.payload
      → length boxes < fuel
      → parse_sidx_index_for_segment_base fl fuel src
          (take (length (encode_all boxes) + (8 + k)) stream)
        ≡ some (err (incomplete_sidx_index (br.start + length (encode_all boxes) + size b - 1)))
  asks_box k fuel short enough =
      let pre = encode_all boxes in
      let here = take k tail_of in
      let kept : length here ≡ k =
        length-take k tail_of ∙ omega (arith, length-append b.payload behind) in
      let rounds : fuel ≡ length boxes + suc (fuel - length boxes - 1) = omega (arith, enough) in
      let end : last_of br.start (length pre) (size b) ≡ br.start + length pre + size b - 1 =
        omega arith in
      failed_scan fl src range br h1 h2 h3 h5 fuel (take (length pre + (8 + k)) stream) _
        (ap reject_unsupported_index_container (partial k) ∙ supported here)
        (ap₂ (λ f x. scan_from f x br.start 0) rounds (partial k)
          ∙ scan_from-passes boxes (suc (fuel - length boxes - 1)) br.start []
              (be_bytes4 (size b) ++ (kind b ++ here)) passed
          ∙ ap (scan_from (suc (fuel - length boxes - 1)) (begun here) br.start) (omega arith)
          ∙ scan-ends (fuel - length boxes - 1) _ br.start (length pre) _
              (round_cut br.start pre b here skipped (omega (arith, kept))))
      ∙ ap (λ x. some (err (incomplete_sidx_index x))) end

  abbrev through : Bytes
  through = encode_all boxes ++ (encode b ++ [])

  length-through : length through ≡ length (encode_all boxes) + size b
  length-through =
      length-append (encode_all boxes) (encode b ++ []) ∙ omega (arith, length-append (encode b) [])

  take-through : take (length (encode_all boxes) + size b) stream ≡ through
  take-through =
      take_past (encode_all boxes) (encode b ++ behind) (size b)
      ∙ ap (λ x. encode_all boxes ++ x)
          (ap (λ n. take n (encode b ++ behind))
              (let e : size b ≡ length (encode b) = omega arith in e)
            ∙ take-length (encode b) behind
            ∙ sym (append-nil (encode b)))

  -- On just these boxes the scan gives up.
  gives_up_behind :
      (fuel : ℕ)
      → length boxes + 1 < fuel
      → scan_from fuel through br.start 0 ≡ some (err sidx_parse)
  gives_up_behind fuel enough =
      let pre = encode_all boxes in
      let left = fuel - length boxes - 2 in
      let rounds : fuel ≡ length boxes + suc (suc left) = omega (arith, enough) in
      ap (λ f. scan_from f through br.start 0) rounds
      ∙ scan_from-passes boxes (suc (suc left)) br.start [] (encode b ++ []) passed
      ∙ ap (scan_from (suc (suc left)) through br.start) (omega arith)
      ∙ scan-moves (suc left) through br.start (length pre) (length pre + size b)
          (round_skips br.start pre b [] skipped)
      ∙ ap (scan_from (suc left) through br.start) (sym length-through)
      ∙ scan-ends left through br.start (length through) _ (round_end br.start through)

  box_fails :
      (fuel : ℕ)
      → length boxes + 1 < fuel
      → parse_sidx_index_for_segment_base fl fuel src
          (take (length (encode_all boxes) + size b) stream)
        ≡ some (err sidx_parse)
  box_fails fuel enough =
      failed_scan fl src range br h1 h2 h3 h5 fuel
        (take (length (encode_all boxes) + size b) stream) sidx_parse
        (ap reject_unsupported_index_container take-through ∙ supported (b.payload ++ []))
        (ap (λ x. scan_from fuel x br.start 0) take-through ∙ gives_up_behind fuel enough)

  module _ (E : Type 0) (before : Bytes) (at : length before ≡ br.start) where
    abbrev server : ByteRange → Result E Bytes
    server = serve fl src br E before stream at

    -- A range that is not `indexRangeExact`, of an index without a `RepresentationIndex`, that
    -- begins with boxes that the scan passes over, and ends in the last of these boxes, behind its
    -- header: with a server that has the file, the first round of the fetch asks for the rest of
    -- that box and no more, and the second fails instead of going on, whatever stands behind the
    -- box, also where it is the `sidx`.
    pub fetch_and_parse_segment_base_index-stops :
        (rounds : ℕ)
        → br.start + length (encode_all boxes) + 7 ≤ br.end
        → br.end + 1 < br.start + length (encode_all boxes) + size b
        → (round fl server src br.end (take (br.end - br.start + 1) stream)
            ≡ extends (br.start + length (encode_all boxes) + size b - 1))
          × (fetch_and_parse_segment_base_index fl server (suc (suc rounds)) src br
              ≡ some (err (manifest sidx_parse)))
    fetch_and_parse_segment_base_index-stops rounds long short =
        let off = length (encode_all boxes) in
        let n = br.end - br.start + 1 in
        let k = n - 8 - off in
        let need = br.start + off + size b - 1 in
        let split : n ≡ off + (8 + k) = omega arith in
        let reach : need + 1 - br.start ≡ off + size b = omega arith in
        let many = length-encode_all boxes in
        let all : length stream ≡ off + (size b + length behind) =
          length-append (encode_all boxes) (encode b ++ behind)
          ∙ omega (arith, length-append (encode b) behind) in
        let some_there : length (take n stream) ≡ n = length-take n stream ∙ omega (arith, all) in
        let more_there : length (take (off + size b) stream) ≡ off + size b =
          length-take (off + size b) stream ∙ omega (arith, all) in
        let asks : parse_sidx_index_for_segment_base fl (suc (length (take n stream))) src
              (take n stream)
            ≡ some (err (incomplete_sidx_index need)) =
          ap
            (λ m.
              parse_sidx_index_for_segment_base fl (suc (length (take n stream))) src
                (take m stream))
            split
          ∙ asks_box k (suc (length (take n stream))) (omega arith)
              (omega (arith, some_there, many)) in
        (
          asked fl src br E before stream at n br.end need (omega arith) asks,
          first_request fl src br E before stream at (suc (suc rounds))
              ∙ extended fl src br E before stream at n br.end need (suc rounds) (omega arith)
                  (omega arith) (omega arith) asks
              ∙ ap (λ m. extend_until_complete fl server (suc rounds) src need (take m stream))
                  reach
              ∙ gives_up fl src br E before stream at (off + size b) need rounds (
                  box_fails (suc (length (take (off + size b) stream)))
                    (omega (arith, more_there, many))),
        )
