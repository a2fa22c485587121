-- ===== src/Mp4/Prefix.antt =====
-- Reading a header from a buffer that holds the beginning of a stream of boxes.
use dashplay_rs.Prelude.{
  ◌+◌, ◌-◌, ◌^◌, ◌<◌, ◌≤◌, ◌≡◌, some, ◌∷◌, ◌++◌, arith, length, take, drop, length-append, ap, ◌∙◌,
  drop-length, drop_past, le→leb,
}
use dashplay_rs.Bytes.{Bytes, be, be_bytes4, be-be_bytes4}
use dashplay_rs.Mp4.Header.{read_box_size, box_type_at}
use dashplay_rs.Mp4.Wire.{Box, kind, size, encode}

-- Eight bytes of a stream that begins with `b` are the header of `b`.
header_of_prefix :
    (rest future tail : Bytes) (b : Box)
    → 8 ≤ length rest
    → rest ++ future ≡ encode b ++ tail
    → (take 4 rest ≡ be_bytes4 (size b)) × (take 4 (drop 4 rest) ≡ kind b)
header_of_prefix (a0 ∷ a1 ∷ a2 ∷ a3 ∷ a4 ∷ a5 ∷ a6 ∷ a7 ∷ r) future tail b h e = (cc, cc)
header_of_prefix _ future tail b h e = absurd (omega arith)

module _ (pre rest future tail : Bytes) (b : Box) (long : 8 ≤ length rest) (fits : size b < 2 ^ 32)
    (stream : rest ++ future ≡ encode b ++ tail) where
  pub read_box_size-encode : read_box_size (pre ++ rest) (length pre) ≡ some (size b, 8)
  unfolding read_box_size
  read_box_size-encode =
      let head = (header_of_prefix rest future tail b long stream).0 in
      let value : be (take 4 (drop (length pre) (pre ++ rest))) ≡ size b =
        ap (λ l. be (take 4 l)) (drop-length pre rest) ∙ ap be head ∙ be-be_bytes4 (size b) fits in
      let total = length-append pre rest in rw value (ground (arith, total))

  pub box_type_at-encode : box_type_at (pre ++ rest) (length pre) 8 ≡ some (kind b)
  unfolding box_type_at
  box_type_at-encode =
      let word = (header_of_prefix rest future tail b long stream).1 in
      let at : length pre + 8 - 4 ≡ length pre + 4 = omega arith in
      let value : take 4 (drop (length pre + 4) (pre ++ rest)) ≡ kind b =
        ap (take 4) (drop_past pre rest 4) ∙ word in
      rw (
        at,
        value,
        le→leb (length pre + 4 + 4) (length (pre ++ rest)) (omega (arith, length-append pre rest)),
      )
