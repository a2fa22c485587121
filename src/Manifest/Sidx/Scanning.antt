-- ===== src/Manifest/Sidx/Scanning.antt =====
-- The scan for a `sidx` over the boxes before it (src/manifest/sidx/mod.rs).
use dashplay_rs.Prelude.{
  ℕ, zero, suc, ◌+◌, ◌-◌, ◌^◌, ◌<◌, ◌≤◌, ◌≡◌, sym, ap, ap₂, ◌∙◌, true, false, some, List, [], ◌∷◌,
  ◌++◌, lt→ltb, le→ltb, le→leb, lt→leb, ◌==◌, length, length-append, take, drop, drop-length,
  drop_past, append_assoc, Result, ok, err, arith,
}
use dashplay_rs.Bytes.{Bytes, be, be_bytes4, be-be_bytes4, eq_bytes}
use dashplay_rs.Mp4.Wire.{Box, kind, size, encode, encode_all}
use dashplay_rs.Manifest.Types.{ManifestError, sidx_parse, incomplete_sidx_index}
use dashplay_rs.Manifest.Sidx.Parser.{sidx}
use dashplay_rs.Manifest.Sidx.Locate.{
  read_box_header, ends, moves, scan_header, scan_round, scan_from, is_graphic, max_scan_skip,
  header_end, last_of,
}

-- A box header in the bytes: the size, the type.
pub read_box_header_at :
    (pre : Bytes) (size : ℕ) (k0 k1 k2 k3 : ℕ) (rest : Bytes)
    → 8 ≤ size
    → size < 2 ^ 32
    → read_box_header (pre ++ (be_bytes4 size ++ (k0 ∷ k1 ∷ k2 ∷ k3 ∷ rest))) (length pre)
      ≡ ok (size, k0 ∷ k1 ∷ k2 ∷ k3 ∷ [])
unfolding read_box_header
read_box_header_at pre size k0 k1 k2 k3 rest low high =
    let word = be_bytes4 size ++ (k0 ∷ k1 ∷ k2 ∷ k3 ∷ rest) in
    let total : length (pre ++ word) ≡ length pre + 8 + length rest =
      length-append pre word ∙ omega arith in
    let value : be (take 4 (drop (length pre) (pre ++ word))) ≡ size =
      ap (λ l. be (take 4 l)) (drop-length pre word) ∙ be-be_bytes4 size high in
    let filled : (size == 0) ≡ false = ground arith in
    let small : (size == 1) ≡ false = ground arith in
    rw (
      le→ltb (length (pre ++ word) - length pre) 8 (omega (arith, total)),
      value,
      filled,
      small,
      le→ltb size 8 low,
      drop_past pre word 4,
    )

-- The header is read or it is not; where it is, the box has a header's length.
pub read_box_header-size :
    (bytes : Bytes) (off : ℕ) {size : ℕ} {typ : Bytes}
    → read_box_header bytes off ≡ ok (size, typ)
    → (8 ≤ size) × (off + 8 ≤ length bytes)
unfolding read_box_header
read_box_header-size bytes off h = ground (arith, h)

-- A box that the scan passes over: graphic type, no `sidx`, not too large.
pub record IsSkipped (b : Box) : Type 0 where
  pub other : eq_bytes (kind b) sidx ≡ false
  pub graphic : is_graphic (kind b) ≡ true
  pub small : size b ≤ max_scan_skip

abbrev pub AllSkipped : List Box → Type 0
AllSkipped [] = Unit
AllSkipped (b ∷ bs) = IsSkipped b × AllSkipped bs

module _ (range_start : ℕ) (pre : Bytes) where
  -- A box that is all there is passed over.
  pub round_skips :
      (b : Box) (more : Bytes)
      → IsSkipped b
      → scan_round (pre ++ (encode b ++ more)) range_start (length pre)
        ≡ moves (length pre + size b)
  unfolding scan_round scan_header
  round_skips b more s =
      let bytes = pre ++ (encode b ++ more) in
      let total : length bytes ≡ length pre + size b + length more =
        length-append pre (encode b ++ more) ∙ omega (arith, length-append (encode b) more) in
      rw (
        lt→ltb (length pre) (length bytes) (omega (arith, total)),
        read_box_header_at pre (size b) b.k0 b.k1 b.k2 b.k3 (b.payload ++ more) (omega arith)
            (omega (arith, s.small)),
        s.other,
        s.graphic,
        le→ltb max_scan_skip (size b) s.small,
        le→leb (length pre + size b) (length bytes) (omega (arith, total)),
      )

  -- A box that has begun and is not all there: the bytes through its end are asked for.
  pub round_cut :
      (b : Box) (here : Bytes)
      → IsSkipped b
      → length here < length b.payload
      → scan_round (pre ++ (be_bytes4 (size b) ++ (kind b ++ here))) range_start (length pre)
        ≡ ends (err (incomplete_sidx_index (last_of range_start (length pre) (size b))))
  unfolding scan_round scan_header
  round_cut b here s short =
      let bytes = pre ++ (be_bytes4 (size b) ++ (kind b ++ here)) in
      let total : length bytes ≡ length pre + 8 + length here =
        length-append pre (be_bytes4 (size b) ++ (kind b ++ here)) ∙ omega arith in
      rw (
        lt→ltb (length pre) (length bytes) (omega (arith, total)),
        read_box_header_at pre (size b) b.k0 b.k1 b.k2 b.k3 here (omega arith)
            (omega (arith, s.small)),
        s.other,
        s.graphic,
        le→ltb max_scan_skip (size b) s.small,
        lt→leb (length pre + size b) (length bytes) (omega (arith, total)),
      )

  -- The `sidx` is found if all of it is there.
  pub round_finds :
      (fields rest : Bytes)
      → 8 + length fields < 2 ^ 32
      → scan_round
          (pre ++ (be_bytes4 (8 + length fields) ++ (sidx ++ (fields ++ rest))))
          range_start
          (length pre)
        ≡ ends (ok (length pre))
  unfolding scan_round scan_header
  round_finds fields rest high =
      let bytes = pre ++ (be_bytes4 (8 + length fields) ++ (sidx ++ (fields ++ rest))) in
      let total : length bytes ≡ length pre + 8 + length fields + length rest =
        length-append pre (be_bytes4 (8 + length fields) ++ (sidx ++ (fields ++ rest)))
        ∙ omega (arith, length-append fields rest) in
      rw (
        lt→ltb (length pre) (length bytes) (omega (arith, total)),
        read_box_header_at pre (8 + length fields) b's' b'i' b'd' b'x' (fields ++ rest)
            (omega arith) high,
        le→leb (length pre + (8 + length fields)) (length bytes) (omega (arith, total)),
      )

  -- Of a `sidx` that is not all there the bytes through its end are asked for.
  pub round_waits :
      (wanted : ℕ) (here : Bytes)
      → 8 + length here < wanted
      → wanted < 2 ^ 32
      → scan_round (pre ++ (be_bytes4 wanted ++ (sidx ++ here))) range_start (length pre)
        ≡ ends (err (incomplete_sidx_index (last_of range_start (length pre) wanted)))
  unfolding scan_round scan_header
  round_waits wanted here short high =
      let bytes = pre ++ (be_bytes4 wanted ++ (sidx ++ here)) in
      let total : length bytes ≡ length pre + 8 + length here =
        length-append pre (be_bytes4 wanted ++ (sidx ++ here)) ∙ omega arith in
      rw (
        lt→ltb (length pre) (length bytes) (omega (arith, total)),
        read_box_header_at pre wanted b's' b'i' b'd' b'x' here (omega arith) high,
        lt→leb (length pre + wanted) (length bytes) (omega (arith, total)),
      )

  -- Less than a header: the bytes through its end are asked for.
  pub round_short :
      (here : Bytes)
      → 0 < length here
      → length here < 8
      → scan_round (pre ++ here) range_start (length pre)
        ≡ ends (err (incomplete_sidx_index (header_end range_start (length pre))))
  unfolding scan_round scan_header read_box_header
  round_short here begun short =
      let total = length-append pre here in
      rw (
        lt→ltb (length pre) (length (pre ++ here)) (omega (arith, total)),
        lt→ltb (length (pre ++ here) - length pre) 8 (omega (arith, total)),
      )

  -- At the end of the bytes the scan gives up.
  pub round_end : scan_round pre range_start (length pre) ≡ ends (err sidx_parse)
  unfolding scan_round
  round_end = rw (le→ltb (length pre) (length pre) (omega arith))

module _ (fuel : ℕ) (bytes : Bytes) (range_start off : ℕ) where
  pub scan-ends :
      (r : Result ManifestError ℕ)
      → scan_round bytes range_start off ≡ ends r
      → scan_from (suc fuel) bytes range_start off ≡ some r
  unfolding scan_from
  scan-ends r h = rw (h, scan_from)

  pub scan-moves :
      (next : ℕ)
      → scan_round bytes range_start off ≡ moves next
      → scan_from (suc fuel) bytes range_start off ≡ scan_from fuel bytes range_start next
  unfolding scan_from
  scan-moves next h = rw (h, scan_from)

-- The scan over boxes that it passes over finds the `sidx` behind them.
pub scan_from-finds :
    (boxes : List Box) (fuel range_start : ℕ) (pre fields rest : Bytes)
    → length boxes < fuel
    → AllSkipped boxes
    → 8 + length fields < 2 ^ 32
    → scan_from fuel
        (pre ++ (encode_all boxes ++ (be_bytes4 (8 + length fields) ++ (sidx ++ (fields ++ rest)))))
        range_start
        (length pre)
      ≡ some (ok (length pre + length (encode_all boxes)))
scan_from-finds boxes zero range_start pre fields rest f s high = absurd (omega arith)
scan_from-finds [] (suc fuel) range_start pre fields rest f s high =
    scan-ends fuel _ range_start (length pre) _ (round_finds range_start pre fields rest high)
    ∙ ap (λ n. some (ok n)) (omega arith)
scan_from-finds (b ∷ bs) (suc fuel) range_start pre fields rest f (s, ss) high =
    let tail = encode_all bs ++ (be_bytes4 (8 + length fields) ++ (sidx ++ (fields ++ rest))) in
    let regroup : (encode b ++ encode_all bs)
          ++ (be_bytes4 (8 + length fields) ++ (sidx ++ (fields ++ rest)))
        ≡ encode b ++ tail =
      append_assoc (encode b) (encode_all bs) _ in
    let at : length (pre ++ encode b) ≡ length pre + size b =
      length-append pre (encode b) ∙ omega arith in
    ap (λ x. scan_from (suc fuel) (pre ++ x) range_start (length pre)) regroup
    ∙ scan-moves fuel (pre ++ (encode b ++ tail)) range_start (length pre) (length pre + size b)
        (round_skips range_start pre b tail s)
    ∙ ap₂ (λ x o. scan_from fuel x range_start o) (sym (append_assoc pre (encode b) tail)) (sym at)
    ∙ scan_from-finds bs fuel range_start (pre ++ encode b) fields rest (omega arith) ss high
    ∙ ap (λ n. some (ok n)) (omega (arith, at, length-append (encode b) (encode_all bs)))
