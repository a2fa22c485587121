-- ===== src/Manifest/Sidx/Passing.antt =====
-- The scan for a `sidx` with other boxes before it (src/manifest/sidx/mod.rs): what it is after
-- these boxes.
use dashplay_rs.Prelude.{
  ℕ, ◌+◌, ◌≤◌, ◌≡◌, sym, ap, ap₂, ◌∙◌, List, [], ◌∷◌, ◌++◌, length, length-append, append_assoc,
  arith,
}
use dashplay_rs.Bytes.{Bytes}
use dashplay_rs.Mp4.Wire.{Box, size, encode, encode_all}
use dashplay_rs.Manifest.Sidx.Locate.{scan_from}
use dashplay_rs.Manifest.Sidx.Scanning.{AllSkipped, round_skips, scan-moves}

-- A box is at least a byte long.
pub length-encode_all : (boxes : List Box) → length boxes ≤ length (encode_all boxes)
length-encode_all [] = omega arith
length-encode_all (b ∷ bs) =
    omega (arith, length-append (encode b) (encode_all bs), length-encode_all bs)

-- The scan passes over boxes, each in a round.
pub scan_from-passes :
    (boxes : List Box) (fuel range_start : ℕ) (pre rest : Bytes)
    → AllSkipped boxes
    → scan_from (length boxes + fuel) (pre ++ (encode_all boxes ++ rest)) range_start (length pre)
      ≡ scan_from fuel
          (pre ++ (encode_all boxes ++ rest))
          range_start
          (length pre + length (encode_all boxes))
scan_from-passes [] fuel range_start pre rest s =
    ap₂ (λ f o. scan_from f (pre ++ rest) range_start o) (omega arith) (omega arith)
scan_from-passes (b ∷ bs) fuel range_start pre rest (s, ss) =
    let tail = encode_all bs ++ rest in
    let regroup : (encode b ++ encode_all bs) ++ rest ≡ encode b ++ tail =
      append_assoc (encode b) (encode_all bs) rest in
    let at : length (pre ++ encode b) ≡ length pre + size b =
      length-append pre (encode b) ∙ omega arith in
    let end : length (pre ++ encode b) + length (encode_all bs)
        ≡ length pre + length (encode b ++ encode_all bs) =
      omega (arith, at, length-append (encode b) (encode_all bs)) in
    let whole : (pre ++ encode b) ++ tail ≡ pre ++ ((encode b ++ encode_all bs) ++ rest) =
      append_assoc pre (encode b) tail ∙ ap (λ x. pre ++ x) (sym regroup) in
    ap₂ (λ f x. scan_from f (pre ++ x) range_start (length pre)) (omega arith) regroup
    ∙ scan-moves (length bs + fuel) (pre ++ (encode b ++ tail)) range_start (length pre)
        (length pre + size b) (round_skips range_start pre b tail s)
    ∙ ap₂ (λ x o. scan_from (length bs + fuel) x range_start o)
        (sym (append_assoc pre (encode b) tail)) (sym at)
    ∙ scan_from-passes bs fuel range_start (pre ++ encode b) rest ss
    ∙ ap₂ (λ x o. scan_from fuel x range_start o) whole end
