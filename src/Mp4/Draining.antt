-- ===== src/Mp4/Draining.antt =====
-- What is drained from a buffer that holds the beginning of a stream, against the boxes of the stream.
use dashplay_rs.Prelude.{
  ℕ, zero, suc, ◌^◌, ◌<◌, ◌≤◌, ◌≡◌, refl, sym, ap, ◌∙◌, subst, Option, none, some, List, [], ◌∷◌,
  ◌++◌, arith, length, length-append, lt→ltb, le→ltb, inl, inr, lt_or_le,
}
use dashplay_rs.Bytes.{Bytes}
use dashplay_rs.Mp4.Chunks.{try_take_fragment, skip_to_moof, after_search, drain_fragments}
use dashplay_rs.Mp4.Wire.{Box, encode, encode_all, AllFit, fragments}
use dashplay_rs.Mp4.Rounds.{length-encode}
use dashplay_rs.Mp4.Fragments.{Holds, Take, waits, takes}
use dashplay_rs.Mp4.Searching.{search-Take}

fragments_end : fragments none [] ≡ []
unfolding fragments
fragments_end = refl

-- With less than a header no fragment is left.
pub short_end : (bs : List Box) → length (encode_all bs) < 8 → fragments none bs ≡ []
short_end [] h = fragments_end
short_end (b ∷ bs) h =
    absurd (omega (arith, length-append (encode b) (encode_all bs), length-encode b))

try_short :
    (fuel : ℕ) (bytes : Bytes)
    → length bytes < 8
    → try_take_fragment fuel bytes ≡ some (none, bytes)
unfolding try_take_fragment
try_short fuel bytes h = rw (lt→ltb (length bytes) 8 h)

try_long :
    (fuel : ℕ) (bytes : Bytes)
    → 8 ≤ length bytes
    → try_take_fragment fuel bytes ≡ after_search bytes (skip_to_moof fuel bytes 0)
unfolding try_take_fragment
try_long fuel bytes h = rw (le→ltb (length bytes) 8 h)

-- One call, on the beginning of a stream.
pub try-Take :
    (fuel : ℕ) (all : List Box) (buffer future : Bytes)
    → length all < fuel
    → length (encode_all all) < 2 ^ 63
    → AllFit all
    → buffer ++ future ≡ encode_all all
    → Take all future (try_take_fragment fuel buffer)
try-Take fuel all buffer future f small fit s = elim (lt_or_le (length buffer) 8) [
  | inl short ↦
      waits all buffer
        (record { fit = fit; stream = s; shorter = omega arith; fewer = omega arith })
        (try_short fuel buffer short) refl
        (λ n. short_end all (omega (arith, ap length s, ap length n, length-append buffer future)))
  | inr long ↦ subst (Take all future) (sym (try_long fuel buffer long)) (
      search-Take all future small fit fuel all [] buffer f s fit s refl (omega arith)
        (omega arith))
]

-- What is drained from a buffer, and the stream that goes on behind it.
pub record Drained (all : List Box) (future : Bytes) (d : Option (List Bytes × Bytes))
    : Type 0 where
  pub taken : List Bytes
  pub boxes : List Box
  pub left : Bytes
  pub is : d ≡ some (taken, left)
  pub holds : Holds all future boxes left
  pub sum : fragments none all ≡ taken ++ fragments none boxes
  pub last : future ≡ [] → fragments none boxes ≡ []

module _ (rounds fuel : ℕ) (buffer rest : Bytes) where
  drain-waits :
      try_take_fragment fuel buffer ≡ some (none, rest)
      → drain_fragments (suc rounds) fuel buffer ≡ some ([], rest)
  unfolding drain_fragments
  drain-waits h = rw (h, drain_fragments)

  drain-takes :
      (fragment : Bytes) (more : List Bytes) (left : Bytes)
      → try_take_fragment fuel buffer ≡ some (some fragment, rest)
      → drain_fragments rounds fuel rest ≡ some (more, left)
      → drain_fragments (suc rounds) fuel buffer ≡ some (fragment ∷ more, left)
  unfolding drain_fragments
  drain-takes fragment more left h k = rw (h, k, drain_fragments)

pub drain-Drained :
    (rounds fuel : ℕ) (all : List Box) (buffer future : Bytes)
    → length all < rounds
    → length all < fuel
    → length (encode_all all) < 2 ^ 63
    → AllFit all
    → buffer ++ future ≡ encode_all all
    → Drained all future (drain_fragments rounds fuel buffer)
drain-Drained zero fuel all buffer future r f small fit s = absurd (omega arith)
drain-Drained (suc rounds) fuel all buffer future r f small fit s =
    elim (try-Take fuel all buffer future f small fit s) [
      | waits bs buf h e same last ↦ record {
        taken = [];
        boxes = bs;
        left = buf;
        is = drain-waits rounds fuel buffer buf e;
        holds = h;
        sum = same;
        last = λ n. sym same ∙ last n;
      }
      | takes bs buf fragment h less e same ↦
          let d =
            drain-Drained rounds fuel bs buf future (omega arith) (omega arith)
              (omega (arith, h.shorter)) h.fit h.stream in
          record {
            taken = fragment ∷ d.taken;
            boxes = d.boxes;
            left = d.left;
            is = drain-takes rounds fuel buffer buf fragment d.taken d.left e d.is;
            holds = record {
              fit = d.holds.fit;
              stream = d.holds.stream;
              shorter = omega (arith, d.holds.shorter, h.shorter);
              fewer = omega (arith, d.holds.fewer, h.fewer);
            };
            sum = same ∙ ap (◌∷◌ fragment) d.sum;
            last = d.last;
          }
    ]
