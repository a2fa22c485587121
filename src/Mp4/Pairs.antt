-- ===== src/Mp4/Pairs.antt =====
-- What the accumulator takes from a buffer that begins with a complete `moof`.
use dashplay_rs.Prelude.{
  ◌+◌, ◌^◌, ◌<◌, ◌≤◌, ◌≡◌, sym, ap, ◌∙◌, true, false, none, some, [], ◌++◌, arith, length, take,
  drop, length-append, lt→ltb, le→ltb, take-length, drop-length, append_assoc, append-nil,
}
use dashplay_rs.Bytes.{Bytes, usize_add}
use dashplay_rs.Mp4.Header.{read_box_size, box_type_at}
use dashplay_rs.Mp4.Chunks.{take_pair}
use dashplay_rs.Mp4.Wire.{Box, kind, size, encode, is_mdat}
use dashplay_rs.Mp4.Prefix.{read_box_size-encode, box_type_at-encode}
use dashplay_rs.Mp4.Rounds.{length-encode}

module _ (m : Box) (rest future tail : Bytes) (small : length (encode m ++ rest) < 2 ^ 63)
    (fits : size m < 2 ^ 32) where
  total : length (encode m ++ rest) ≡ size m + length rest
  total = length-append (encode m) rest ∙ ap (λ k. k + length rest) (length-encode m)

  first_size : read_box_size (encode m ++ rest) 0 ≡ some (size m, 8)
  first_size =
      read_box_size-encode [] (encode m ++ rest) [] rest m (omega (arith, total)) fits
        (append-nil (encode m ++ rest))

  pub take_pair-short : length rest < 8 → take_pair (encode m ++ rest) ≡ none
  unfolding take_pair
  take_pair-short h = rw (
    first_size,
    le→ltb (size m) 8 (omega arith),
    le→ltb (length (encode m ++ rest)) (size m) (omega (arith, total)),
    lt→ltb (length (encode m ++ rest)) (size m + 8) (omega (arith, total)),
  )

  module _ (n : Box) (long : 8 ≤ length rest) (fits' : size n < 2 ^ 32)
      (stream : rest ++ future ≡ encode n ++ tail) where
    second_size : read_box_size (encode m ++ rest) (size m) ≡ some (size n, 8)
    second_size =
        ap (read_box_size (encode m ++ rest)) (sym (length-encode m))
        ∙ read_box_size-encode (encode m) rest future tail n long fits' stream

    second_kind : box_type_at (encode m ++ rest) (size m) 8 ≡ some (kind n)
    second_kind =
        ap (λ o. box_type_at (encode m ++ rest) o 8) (sym (length-encode m))
        ∙ box_type_at-encode (encode m) rest future tail n long fits' stream

    cut_first :
        (take (size m) (encode m ++ rest) ≡ encode m) × (drop (size m) (encode m ++ rest) ≡ rest)
    cut_first = (
      ap (λ k. take k (encode m ++ rest)) (sym (length-encode m)) ∙ take-length (encode m) rest,
      ap (λ k. drop k (encode m ++ rest)) (sym (length-encode m)) ∙ drop-length (encode m) rest,
    )

    pub take_pair-alone : is_mdat n ≡ false → take_pair (encode m ++ rest) ≡ some (encode m, rest)
    unfolding take_pair
    take_pair-alone h = rw (
      first_size,
      le→ltb (size m) 8 (omega arith),
      le→ltb (length (encode m ++ rest)) (size m) (omega (arith, total)),
      le→ltb (length (encode m ++ rest)) (size m + 8) (omega (arith, total)),
      second_size,
      le→ltb (size n) 8 (omega arith),
      second_kind,
      h,
      cut_first.0,
      cut_first.1,
    )

    pub take_pair-waits :
        is_mdat n ≡ true → length rest < size n → take_pair (encode m ++ rest) ≡ none
    unfolding take_pair
    take_pair-waits h k =
        let sum : usize_add (size m) (size n) ≡ size m + size n = omega arith in
        rw (
          first_size,
          le→ltb (size m) 8 (omega arith),
          le→ltb (length (encode m ++ rest)) (size m) (omega (arith, total)),
          le→ltb (length (encode m ++ rest)) (size m + 8) (omega (arith, total)),
          second_size,
          le→ltb (size n) 8 (omega arith),
          second_kind,
          h,
          sum,
          lt→ltb (length (encode m ++ rest)) (size m + size n) (omega (arith, total)),
        )

    pub take_pair-both :
        (more : Bytes)
        → is_mdat n ≡ true
        → rest ≡ encode n ++ more
        → take_pair (encode m ++ rest) ≡ some (encode m ++ encode n, more)
    unfolding take_pair
    take_pair-both more h e =
        let sum : usize_add (size m) (size n) ≡ size m + size n = omega arith in
        let both : length (encode m ++ encode n) ≡ size m + size n =
          length-append (encode m) (encode n) ∙ omega arith in
        let whole : encode m ++ rest ≡ (encode m ++ encode n) ++ more =
          ap (◌++◌ (encode m)) e ∙ sym (append_assoc (encode m) (encode n) more) in
        let front : take (size m + size n) (encode m ++ rest) ≡ encode m ++ encode n =
          ap (take (size m + size n)) whole
          ∙ ap (λ k. take k ((encode m ++ encode n) ++ more)) (sym both)
          ∙ take-length (encode m ++ encode n) more in
        let back : drop (size m + size n) (encode m ++ rest) ≡ more =
          ap (drop (size m + size n)) whole
          ∙ ap (λ k. drop k ((encode m ++ encode n) ++ more)) (sym both)
          ∙ drop-length (encode m ++ encode n) more in
        rw
          (
            first_size,
            le→ltb (size m) 8 (omega arith),
            le→ltb (length (encode m ++ rest)) (size m) (omega (arith, total)),
            le→ltb (length (encode m ++ rest)) (size m + 8) (omega (arith, total)),
            second_size,
            le→ltb (size n) 8 (omega arith),
            second_kind,
            h,
            sum,
            le→ltb (length (encode m ++ rest)) (size m + size n) (
                omega
                  (arith, total, ap length whole, length-append (encode m ++ encode n) more, both)),
          )
          (cc (front, back))
