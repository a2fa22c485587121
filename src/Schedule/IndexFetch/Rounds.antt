-- ===== src/Schedule/IndexFetch/Rounds.antt =====
-- One round of the fetch, with a server that has the file (src/schedule/segment_fetch.rs).
use dashplay_rs.Prelude.{
  add_u64, ℕ, suc, ◌+◌, ◌-◌, ◌^◌, ◌<◌, ◌≡◌, sym, ap, ◌∙◌, some, List, ◌++◌, lt→ltb, length, take,
  drop, drop-length, drop_past, take-append, Result, ok, err, arith,
}
use dashplay_rs.Bytes.{Bytes, slice}
use dashplay_rs.Float.{F64}
use dashplay_rs.Manifest.Types.{ByteRange, TimelineSegment, incomplete_sidx_index, sidx_parse}
use dashplay_rs.Manifest.Sidx.Load.{IndexSource, parse_sidx_index_for_segment_base}
use dashplay_rs.Schedule.IndexFetch.{
  manifest, extends, round_of, round, extend_until_complete, fetch_and_parse_segment_base_index,
}

module _ (fl : F64) (src : IndexSource) (br : ByteRange) (E : Type 0) (before stream : Bytes)
    (at : length before ≡ br.start) where
  -- The server has the file, and answers a range with its bytes.
  abbrev pub serve : ByteRange → Result E Bytes
  serve r = ok (slice (before ++ stream) r.start (r.end - r.start + 1))

  pub returned :
      (n end rounds : ℕ) (segments : List (TimelineSegment fl.Value))
      → parse_sidx_index_for_segment_base fl (suc (length (take n stream))) src (take n stream)
        ≡ some (ok segments)
      → extend_until_complete fl serve (suc rounds) src end (take n stream) ≡ some (ok segments)
  unfolding extend_until_complete round round_of
  returned n end rounds segments h =
      let fuel : length (take n stream) + 1 ≡ suc (length (take n stream)) = omega arith in
      rw (fuel, h, extend_until_complete)

  -- A round that asks for more.
  pub asked :
      (n end need : ℕ)
      → end < need
      → parse_sidx_index_for_segment_base fl (suc (length (take n stream))) src (take n stream)
        ≡ some (err (incomplete_sidx_index need))
      → round fl serve src end (take n stream) ≡ extends need
  unfolding round round_of
  asked n end need h p =
      let fuel : length (take n stream) + 1 ≡ suc (length (take n stream)) = omega arith in
      rw (fuel, p, lt→ltb end need h)

  -- The bytes that are asked for are those that come next.
  pub extended :
      (n end need rounds : ℕ)
      → end + 1 ≡ br.start + n
      → end < need
      → need < 2 ^ 64 - 1
      → parse_sidx_index_for_segment_base fl (suc (length (take n stream))) src (take n stream)
        ≡ some (err (incomplete_sidx_index need))
      → extend_until_complete fl serve (suc rounds) src end (take n stream)
        ≡ extend_until_complete fl serve rounds src need (take (need + 1 - br.start) stream)
  unfolding extend_until_complete round round_of
  extended n end need rounds e h max_u64 p =
      let fuel : length (take n stream) + 1 ≡ suc (length (take n stream)) = omega arith in
      let next : add_u64 end 1 ≡ length before + n = omega (arith, at) in
      let count : need - (length before + n) + 1 ≡ need + 1 - br.start - n = omega (arith, at) in
      let all : n + (need + 1 - br.start - n) ≡ need + 1 - br.start = omega arith in
      rw (fuel, p, lt→ltb end need h, next, drop_past before stream n, count, extend_until_complete)
        (ap (extend_until_complete fl serve rounds src need)
          (take-append n (need + 1 - br.start - n) stream ∙ ap (λ m. take m stream) all))

  -- An error of the manifest that asks for nothing ends the fetch.
  pub gives_up :
      (n end rounds : ℕ)
      → parse_sidx_index_for_segment_base fl (suc (length (take n stream))) src (take n stream)
        ≡ some (err sidx_parse)
      → extend_until_complete fl serve (suc rounds) src end (take n stream)
        ≡ some (err (manifest sidx_parse))
  unfolding extend_until_complete round round_of
  gives_up n end rounds h =
      let fuel : length (take n stream) + 1 ≡ suc (length (take n stream)) = omega arith in
      rw (fuel, h, extend_until_complete)

  -- The first request.
  pub first_request :
      (rounds : ℕ)
      → fetch_and_parse_segment_base_index fl serve rounds src br
        ≡ extend_until_complete fl serve rounds src br.end (take (br.end - br.start + 1) stream)
  unfolding fetch_and_parse_segment_base_index
  first_request rounds =
      let n = br.end - br.start + 1 in
      ap (extend_until_complete fl serve rounds src br.end) (
        ap (λ s. take n (drop s (before ++ stream))) (sym at)
        ∙ ap (take n) (drop-length before stream))
