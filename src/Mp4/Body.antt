-- ===== src/Mp4/Body.antt =====
-- The accumulator over a whole body, however the body is cut into chunks.
use dashplay_rs.Prelude.{
  ℕ, ◌^◌, ◌<◌, ◌≡◌, refl, sym, ap, ◌∙◌, Option, none, some, List, [], ◌∷◌, ◌++◌, arith, length,
  append_assoc,
}
use dashplay_rs.Bytes.{Bytes}
use dashplay_rs.Mp4.Chunks.{try_take_fragment, drain_fragments, feed, finish, body_fragments}
use dashplay_rs.Mp4.Wire.{Box, encode_all, AllFit, fragments}
use dashplay_rs.Mp4.Fragments.{Holds, waits, takes}
use dashplay_rs.Mp4.Draining.{short_end, try-Take, drain-Drained}

-- A body in chunks, whole.
abbrev pub joined : List Bytes → Bytes
joined [] = []
joined (chunk ∷ chunks) = chunk ++ joined chunks

feed-chunk :
    (fuel : ℕ) (chunk : Bytes) (chunks : List Bytes) (buffer : Bytes) (taken more : List Bytes)
    (rest left : Bytes)
    → drain_fragments fuel fuel (buffer ++ chunk) ≡ some (taken, rest)
    → feed fuel chunks rest ≡ some (more, left)
    → feed fuel (chunk ∷ chunks) buffer ≡ some (taken ++ more, left)
unfolding feed
feed-chunk fuel chunk chunks buffer taken more rest left h k = rw (h, k, feed)

-- All the fragments of the stream are emitted, and the boxes that are left hold none.
record Fed (all : List Box) (f : Option (List Bytes × Bytes)) : Type 0 where
  boxes : List Box
  left : Bytes
  is : f ≡ some (fragments none all, left)
  holds : Holds all [] boxes left
  last : fragments none boxes ≡ []

feed-Fed :
    (fuel : ℕ) (chunks : List Bytes) (all : List Box) (buffer : Bytes)
    → length all < fuel
    → length (encode_all all) < 2 ^ 63
    → AllFit all
    → buffer ++ joined chunks ≡ encode_all all
    → (joined chunks ≡ [] → fragments none all ≡ [])
    → Fed all (feed fuel chunks buffer)
unfolding feed
feed-Fed fuel [] all buffer f small fit s last = record {
  boxes = all;
  left = buffer;
  is = ap (λ l. some (l, buffer)) (sym (last refl));
  holds = record { fit = fit; stream = s; shorter = omega arith; fewer = omega arith };
  last = last refl;
}
feed-Fed fuel (chunk ∷ chunks) all buffer f small fit s last =
    let d =
      drain-Drained fuel fuel all (buffer ++ chunk) (joined chunks) f f small fit
        (append_assoc buffer chunk (joined chunks) ∙ s) in
    let r =
      feed-Fed fuel chunks d.boxes d.left (omega (arith, d.holds.fewer))
        (omega (arith, d.holds.shorter)) d.holds.fit d.holds.stream d.last in
    record {
      boxes = r.boxes;
      left = r.left;
      is =
          feed-chunk fuel chunk chunks buffer d.taken (fragments none d.boxes) d.left r.left d.is
            r.is
          ∙ ap (λ l. some (l, r.left)) (sym d.sum);
      holds = record {
        fit = r.holds.fit;
        stream = r.holds.stream;
        shorter = omega (arith, r.holds.shorter, d.holds.shorter);
        fewer = omega (arith, r.holds.fewer, d.holds.fewer);
      };
      last = r.last;
    }

finish-none :
    (fuel : ℕ) (buffer rest : Bytes)
    → try_take_fragment fuel buffer ≡ some (none, rest)
    → finish fuel buffer ≡ some none
unfolding finish
finish-none fuel [] rest h = refl
finish-none fuel (b ∷ bs) rest h = rw (h, finish)

-- Nothing is left for the end of the body.
finish-nothing :
    (fuel : ℕ) (bs : List Box) (buffer : Bytes)
    → length bs < fuel
    → length (encode_all bs) < 2 ^ 63
    → AllFit bs
    → buffer ++ [] ≡ encode_all bs
    → fragments none bs ≡ []
    → finish fuel buffer ≡ some none
finish-nothing fuel bs buffer f small fit s e = elim (try-Take fuel bs buffer [] f small fit s) [
  | waits cs buf h t same last ↦ finish-none fuel buffer buf t
  | takes cs buf fragment h less t same ↦ absurd (omega (arith, ap length (sym e ∙ same)))
]

body_fragments-fed :
    (fuel : ℕ) (chunks : List Bytes) (emitted : List Bytes) (left : Bytes)
    → feed fuel chunks [] ≡ some (emitted, left)
    → finish fuel left ≡ some none
    → body_fragments fuel chunks ≡ some emitted
unfolding body_fragments
body_fragments-fed fuel chunks emitted left h k = rw (h, k, body_fragments)

-- However a body of boxes with 32-bit sizes, shorter than 2^63 bytes, is cut into chunks, with more
-- fuel than it has boxes the calls end and the fragments are exactly those of the stream: each
-- `moof` with the `mdat` behind it, or alone if the header of another box follows. The cuts make no
-- difference, and the end of the body adds nothing.
pub body_fragments-fragments :
    (boxes : List Box) (chunks : List Bytes) (fuel : ℕ)
    → joined chunks ≡ encode_all boxes
    → AllFit boxes
    → length (encode_all boxes) < 2 ^ 63
    → length boxes < fuel
    → body_fragments fuel chunks ≡ some (fragments none boxes)
body_fragments-fragments boxes chunks fuel s fit small f =
    let d =
      feed-Fed fuel chunks boxes [] f small fit s
        (λ n. short_end boxes (omega (arith, ap length (sym s ∙ n)))) in
    body_fragments-fed fuel chunks (fragments none boxes) d.left d.is (
      finish-nothing fuel d.boxes d.left (omega (arith, d.holds.fewer))
        (omega (arith, d.holds.shorter)) d.holds.fit d.holds.stream d.last)
