-- ===== src/Mp4/Fragments.antt =====
-- The accumulator against the stream of boxes: what one call takes from a buffer that holds the
-- beginning of a stream, wherever the stream has been cut.
use dashplay_rs.Prelude.{
  ℕ, suc, ◌+◌, ◌^◌, ◌<◌, ◌≤◌, ◌≡◌, refl, sym, ap, ◌∙◌, true, false, Option, none, some, List, [],
  ◌∷◌, ◌++◌, arith, length, length-append, Bool-cases, inl, inr, split_prefix, append_assoc,
  lt_or_le,
}
use dashplay_rs.Bytes.{Bytes}
use dashplay_rs.Mp4.Chunks.{
  Taken, gone, found, give_up, leave, go_on, search_round, skip_to_moof, keep_or_take, take_pair,
}
use dashplay_rs.Mp4.Wire.{Box, size, encode, encode_all, AllFit, is_moof, is_mdat, fragments}
use dashplay_rs.Mp4.Pairs.{take_pair-short, take_pair-alone, take_pair-waits, take_pair-both}

-- The buffer `buf` and what is still to come are the boxes `bs`, a part of `all`.
pub record Holds (all : List Box) (future : Bytes) (bs : List Box) (buf : Bytes) : Type 0 where
  pub fit : AllFit bs
  pub stream : buf ++ future ≡ encode_all bs
  pub shorter : length (encode_all bs) ≤ length (encode_all all)
  pub fewer : length bs ≤ length all

-- One call on a buffer of the boxes `all`: it waits, or takes their first fragment. It does not wait
-- for a fragment when nothing is still to come.
pub data Take (all : List Box) (future : Bytes) (t : Option Taken) : Type 0 where
  waits :
      (bs : List Box) (buf : Bytes)
      → Holds all future bs buf
      → t ≡ some (none, buf)
      → fragments none all ≡ fragments none bs
      → (future ≡ [] → fragments none all ≡ [])
      → Take all future t
  takes :
      (bs : List Box) (buf fragment : Bytes)
      → Holds all future bs buf
      → length bs < length all
      → t ≡ some (some fragment, buf)
      → fragments none all ≡ fragment ∷ fragments none bs
      → Take all future t

module _ (fuel : ℕ) (bytes : Bytes) (offset : ℕ) where
  pub skip-leave :
      search_round bytes offset ≡ leave → skip_to_moof (suc fuel) bytes offset ≡ found offset
  unfolding skip_to_moof
  skip-leave h = rw (h, skip_to_moof)

  pub skip-give_up :
      search_round bytes offset ≡ give_up → skip_to_moof (suc fuel) bytes offset ≡ gone
  unfolding skip_to_moof
  skip-give_up h = rw (h, skip_to_moof)

  pub skip-go_on :
      (next : ℕ)
      → search_round bytes offset ≡ go_on next
      → skip_to_moof (suc fuel) bytes offset ≡ skip_to_moof fuel bytes next
  unfolding skip_to_moof
  skip-go_on next h = rw (h, skip_to_moof)

-- A stream that is whole leaves no box cut.
whole : (xs ys future : Bytes) → future ≡ [] → xs ++ future ≡ ys → length xs ≡ length ys
whole xs ys future h e = omega (arith, ap length e, length-append xs future, ap length h)

opened :
    (m : Box) (ms : List Box) → is_moof m ≡ true → fragments none (m ∷ ms) ≡ fragments (some m) ms
unfolding fragments
opened m ms is = rw (is, fragments)

-- A `moof` that the next box, not an `mdat`, leaves alone.
closed_alone :
    (m n : Box) (ns : List Box)
    → is_mdat n ≡ false
    → fragments (some m) (n ∷ ns) ≡ encode m ∷ fragments none (n ∷ ns)
unfolding fragments
closed_alone m n ns not_mdat = rw (not_mdat, fragments)

closed_both :
    (m n : Box) (ns : List Box)
    → is_mdat n ≡ true
    → fragments (some m) (n ∷ ns) ≡ (encode m ++ encode n) ∷ fragments none ns
unfolding fragments
closed_both m n ns is = rw (is, fragments)

abbrev pub PairTakes : Box → List Box → Bytes → Bytes → Type 0
PairTakes m ms rest future =
    Take (m ∷ ms) future (some (keep_or_take (encode m ++ rest) (take_pair (encode m ++ rest))))

-- The part of the call behind the search, on a buffer that begins with a complete `moof`.
module _ (m : Box) (ms : List Box) (rest future : Bytes)
    (small : length (encode_all (m ∷ ms)) < 2 ^ 63) (fit : AllFit (m ∷ ms)) (is : is_moof m ≡ true)
    (stream : rest ++ future ≡ encode_all ms) where
  pair_whole : length rest + length future ≡ length (encode_all ms)
  pair_whole = sym (length-append rest future) ∙ ap length stream

  pair_total : length (encode m ++ rest) + length future ≡ length (encode_all (m ∷ ms))
  pair_total =
      omega
        (arith, length-append (encode m) rest, length-append (encode m) (encode_all ms), pair_whole)

  pair_waits :
      take_pair (encode m ++ rest) ≡ none
      → (future ≡ [] → fragments (some m) ms ≡ [])
      → PairTakes m ms rest future
  unfolding keep_or_take
  pair_waits h last =
      waits (m ∷ ms) (encode m ++ rest)
        (record {
          fit = fit;
          stream = append_assoc (encode m) rest future ∙ ap (◌++◌ (encode m)) stream;
          shorter = omega arith;
          fewer = omega arith;
        })
        (ap (λ p. some (keep_or_take (encode m ++ rest) p)) h) refl (λ f. opened m ms is ∙ last f)

  pair_takes :
      (bs : List Box) (fragment buf : Bytes)
      → take_pair (encode m ++ rest) ≡ some (fragment, buf)
      → AllFit bs
      → buf ++ future ≡ encode_all bs
      → length (encode_all bs) ≤ length (encode_all ms)
      → length bs ≤ length ms
      → fragments (some m) ms ≡ fragment ∷ fragments none bs
      → PairTakes m ms rest future
  unfolding keep_or_take
  pair_takes bs fragment buf h fits s shorter fewer e =
      takes bs buf fragment
        (record {
          fit = fits;
          stream = s;
          shorter = omega (arith, length-append (encode m) (encode_all ms));
          fewer = omega arith;
        })
        (omega arith) (ap (λ p. some (keep_or_take (encode m ++ rest) p)) h) (opened m ms is ∙ e)

pub pair-Take :
    (m : Box) (ms : List Box) (rest future : Bytes)
    → length (encode_all (m ∷ ms)) < 2 ^ 63
    → AllFit (m ∷ ms)
    → is_moof m ≡ true
    → rest ++ future ≡ encode_all ms
    → PairTakes m ms rest future
pair-Take m [] rest future small fit is s =
    let n = length-append rest future ∙ refl in
    let t = pair_total m [] rest future small fit is s in
    pair_waits m [] rest future small fit is s
      (take_pair-short m rest future [] (omega arith) fit.0
        (omega (arith, length-append rest future, ap length s)))
      (λ f. unfold fragments in refl)
pair-Take m (n ∷ ns) rest future small fit is s =
    let t = pair_total m (n ∷ ns) rest future small fit is s in
    let w = pair_whole m (n ∷ ns) rest future small fit is s in
    let bounded : length (encode m ++ rest) < 2 ^ 63 = omega arith in
    let second = length-append (encode n) (encode_all ns) in
    let wait = pair_waits m (n ∷ ns) rest future small fit is s in
    let take' = pair_takes m (n ∷ ns) rest future small fit is s in
    elim (lt_or_le (length rest) 8) [
      | inl short ↦
          wait (take_pair-short m rest future [] bounded fit.0 short)
            (λ f. absurd (omega (arith, ap length f)))
      | inr long ↦ elim (Bool-cases (is_mdat n)) [
        | inr no_mdat ↦
            take' (n ∷ ns) (encode m) rest
              (take_pair-alone m rest future (encode_all ns) bounded fit.0 n long fit.1.0 s no_mdat)
              fit.1 s (omega arith) (omega arith) (closed_alone m n ns no_mdat)
        | inl an_mdat ↦ elim (lt_or_le (length rest) (size n)) [
          | inl cut ↦
              wait
                (take_pair-waits m rest future (encode_all ns) bounded fit.0 n long fit.1.0 s
                  an_mdat cut)
                (λ f. absurd (omega (arith, ap length f)))
          | inr full ↦
              let (more, p, q) =
                split_prefix (encode n) rest future (encode_all ns) (omega arith) s in
              take' ns (encode m ++ encode n) more
                (take_pair-both m rest future (encode_all ns) bounded fit.0 n long fit.1.0 s more
                  an_mdat p)
                fit.1.1 q (omega arith) (omega arith) (closed_both m n ns an_mdat)
        ]
      ]
    ]
