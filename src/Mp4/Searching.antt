-- ===== src/Mp4/Searching.antt =====
-- The search for a `moof`, and with it one call of the accumulator, against `Take`.
use dashplay_rs.Prelude.{
  ℕ, zero, suc, ◌+◌, ◌^◌, ◌<◌, ◌≤◌, ◌≡◌, refl, sym, ap, ap₂, ◌∙◌, subst, false, Option, none, some,
  List, [], ◌∷◌, ◌++◌, arith, length, if◌then◌else◌, length-append, lt→ltb, le→ltb, Bool-cases, inl,
  inr, drop-length, split_prefix, append_assoc, lt_or_le,
}
use dashplay_rs.Bytes.{Bytes}
use dashplay_rs.Mp4.Chunks.{
  Taken, leave, go_on, gone, found, skip_to_moof, after_search, keep_or_take, take_pair,
}
use dashplay_rs.Mp4.Wire.{Box, size, encode, encode_all, AllFit, is_moof, fragments}
use dashplay_rs.Mp4.Rounds.{length-encode, round_short, round_incomplete, round_complete}
use dashplay_rs.Mp4.Fragments.{Take, waits, takes, skip-leave, skip-give_up, skip-go_on, pair-Take}

after-gone : (bytes : Bytes) → after_search bytes gone ≡ some (none, bytes)
unfolding after_search
after-gone bytes = refl

after-found_end :
    (bytes : Bytes) (o : ℕ)
    → length bytes < o + 8
    → after_search bytes (found o) ≡ some (none, bytes)
unfolding after_search
after-found_end bytes o h = rw (lt→ltb (length bytes) (o + 8) h)

after-found :
    (pre rest : Bytes)
    → 8 ≤ length rest
    → after_search (pre ++ rest) (found (length pre)) ≡ some (keep_or_take rest (take_pair rest))
unfolding after_search
after-found pre rest h = rw (
  le→ltb (length (pre ++ rest)) (length pre + 8) (omega (arith, length-append pre rest)),
  drop-length pre rest,
)

ended :
    (fuel : ℕ) (pre rest : Bytes)
    → length rest < 8
    → after_search (pre ++ rest) (skip_to_moof (suc fuel) (pre ++ rest) (length pre))
      ≡ some (none, pre ++ rest)
ended fuel pre rest h =
    ap (after_search (pre ++ rest))
      (skip-leave fuel (pre ++ rest) (length pre) (round_short pre rest h))
    ∙ after-found_end (pre ++ rest) (length pre) (omega (arith, length-append pre rest))

-- What a box of the stream adds to the fragments if it is not a `moof`: nothing.
fragments_skip :
    (b : Box) (bs : List Box) → is_moof b ≡ false → fragments none (b ∷ bs) ≡ fragments none bs
unfolding fragments
fragments_skip b bs h = rw (h, fragments)

module _ (all : List Box) (future : Bytes) (small : length (encode_all all) < 2 ^ 63)
    (fits : AllFit all) where
  -- The whole buffer stays, and nothing is lost if the stream goes on.
  stays :
      (buffer : Bytes) (t : Option Taken)
      → buffer ++ future ≡ encode_all all
      → t ≡ some (none, buffer)
      → (future ≡ [] → fragments none all ≡ [])
      → Take all future t
  stays buffer t s e last =
      waits all buffer
        (record { fit = fits; stream = s; shorter = omega arith; fewer = omega arith }) e refl last

  -- A call that acts on a part of the boxes that has the same fragments acts on all of them.
  widen :
      (bs : List Box) (t : Option Taken)
      → fragments none all ≡ fragments none bs
      → length (encode_all bs) ≤ length (encode_all all)
      → length bs ≤ length all
      → Take bs future t
      → Take all future t
  widen bs t same shorter fewer (waits cs buf h e f last) =
      waits cs buf
        (record {
          fit = h.fit;
          stream = h.stream;
          shorter = omega (arith, h.shorter);
          fewer = omega (arith, h.fewer);
        })
        e (same ∙ f) (λ n. same ∙ last n)
  widen bs t same shorter fewer (takes cs buf frag h less e f) =
      takes cs buf frag
        (record {
          fit = h.fit;
          stream = h.stream;
          shorter = omega (arith, h.shorter);
          fewer = omega (arith, h.fewer);
        })
        (omega arith) e (same ∙ f)

  pub search-Take :
      (fuel : ℕ) (bs : List Box) (pre rest : Bytes)
      → length bs < fuel
      → (pre ++ rest) ++ future ≡ encode_all all
      → AllFit bs
      → rest ++ future ≡ encode_all bs
      → fragments none all ≡ fragments none bs
      → length (encode_all bs) ≤ length (encode_all all)
      → length bs ≤ length all
      → Take all future (after_search (pre ++ rest) (skip_to_moof fuel (pre ++ rest) (length pre)))
  search-Take zero bs pre rest f s fit r same shorter fewer = absurd (omega arith)
  search-Take (suc fuel) [] pre rest f s fit r same shorter fewer =
      let short : length rest < 8 = omega (arith, length-append rest future, ap length r) in
      stays (pre ++ rest) _ s (ended fuel pre rest short) (λ n. same ∙ unfold fragments in refl)
  search-Take (suc fuel) (b ∷ bs) pre rest f s fit r same shorter fewer =
      let bound : length (pre ++ rest) < 2 ^ 63 =
        omega (arith, length-append (pre ++ rest) future, ap length s) in
      let total = length-append rest future in
      let first = length-append (encode b) (encode_all bs) in
      elim (lt_or_le (length rest) 8) [
        | inl short ↦
            stays (pre ++ rest) _ s (ended fuel pre rest short)
              (λ n. absurd (omega (arith, ap length n, ap length r, total)))
        | inr long ↦ elim (lt_or_le (length rest) (size b)) [
          | inl cut ↦
              stays (pre ++ rest) _ s
                (ap (after_search (pre ++ rest)) (
                    skip-give_up fuel (pre ++ rest) (length pre)
                      (round_incomplete pre rest future (encode_all bs) b bound fit.0 r long cut))
                  ∙ after-gone (pre ++ rest))
                (λ n. absurd (omega (arith, ap length n, ap length r, total, first)))
          | inr full ↦
              let (more, p, q) =
                split_prefix (encode b) rest future (encode_all bs) (omega arith) r in
              let round =
                round_complete pre rest future (encode_all bs) b bound fit.0 r long full in
              elim (Bool-cases (is_moof b)) [
                | inl is ↦ widen (b ∷ bs) _ same shorter fewer (
                    subst (Take (b ∷ bs) future)
                      (sym (
                        ap (after_search (pre ++ rest)) (
                          skip-leave fuel (pre ++ rest) (length pre)
                            (round ∙ ap (λ c. if c then leave else go_on (length pre + size b)) is))
                        ∙ after-found pre rest long
                        ∙ ap (λ x. some (keep_or_take x (take_pair x))) p))
                      (pair-Take b bs more future (omega arith) fit is q))
                | inr other ↦
                    let again : pre ++ rest ≡ (pre ++ encode b) ++ more =
                      ap (◌++◌ pre) p ∙ sym (append_assoc pre (encode b) more) in
                    let at : length (pre ++ encode b) ≡ length pre + size b =
                      length-append pre (encode b) ∙ ap (λ k. length pre + k) (length-encode b) in
                    subst (Take all future)
                      (sym (
                        ap (after_search (pre ++ rest)) (
                          skip-go_on fuel (pre ++ rest) (length pre) (length pre + size b) (
                            round
                            ∙ ap (λ c. if c then leave else go_on (length pre + size b)) other))
                        ∙ ap₂ (λ x o. after_search x (skip_to_moof fuel x o)) again (sym at)))
                      (search-Take fuel bs (pre ++ encode b) more (omega arith)
                        (ap (λ x. x ++ future) (sym again) ∙ s) fit.1 q
                        (same ∙ fragments_skip b bs other) (omega arith) (omega arith))
              ]
        ]
      ]
