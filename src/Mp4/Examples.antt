-- ===== src/Mp4/Examples.antt =====
-- A low-latency body as a server cuts it, and the accumulator's theorems on it.
use dashplay_rs.Prelude.{◌≡◌, refl, none, some, List, [], ◌∷◌, ◌++◌, arith, take, drop}
use dashplay_rs.Bytes.{Bytes}
use dashplay_rs.Mp4.Header
use dashplay_rs.Mp4.Chunks
use dashplay_rs.Mp4.Chunks.{body_fragments, try_take_fragment, take_pair}
use dashplay_rs.Mp4.Wire.{Box, encode, encode_all, fragments}
use dashplay_rs.Mp4.Body.{body_fragments-fragments}
use dashplay_rs.Mp4.Large.{large_header, wrapping_stream, try_take_fragment-wraps, take_pair-large}

abbrev styp : Box
styp = record { k0 = b's'; k1 = b't'; k2 = b'y'; k3 = b'p'; payload = 1 ∷ 2 ∷ [] }

abbrev a_moof : Box
a_moof = record { k0 = b'm'; k1 = b'o'; k2 = b'o'; k3 = b'f'; payload = 3 ∷ [] }

abbrev an_mdat : Box
an_mdat = record { k0 = b'm'; k1 = b'd'; k2 = b'a'; k3 = b't'; payload = 4 ∷ 5 ∷ 6 ∷ [] }

abbrev body : List Box
body = styp ∷ a_moof ∷ an_mdat ∷ a_moof ∷ styp ∷ a_moof ∷ []

abbrev chunks : List Bytes
chunks =
    take 13 (encode_all body)
    ∷ take 20 (drop 13 (encode_all body))
    ∷ []
    ∷ drop 33 (encode_all body)
    ∷ []

body_fragments_of_body :
    body_fragments 7 chunks ≡ some ((encode a_moof ++ encode an_mdat) ∷ encode a_moof ∷ [])
unfolding body_fragments Chunks.feed Chunks.drain_fragments try_take_fragment Chunks.after_search
    Chunks.skip_to_moof Chunks.search_round Chunks.round_at Header.read_box_size Header.box_type_at
    Chunks.keep_or_take take_pair Chunks.finish
body_fragments_of_body = refl

body_fragments-fragments_example : body_fragments 7 chunks ≡ some (fragments none body)
body_fragments-fragments_example =
    body_fragments-fragments body chunks 7 refl
      (omega arith, (omega arith, (omega arith, (omega arith, (omega arith, (omega arith, tt))))))
      (omega arith) (omega arith)

try_take_fragment-wraps_example : try_take_fragment 1000 (wrapping_stream styp an_mdat []) ≡ none
try_take_fragment-wraps_example =
    try_take_fragment-wraps styp an_mdat [] (omega arith) (omega arith) refl 1000

take_pair-large_example :
    take_pair (encode a_moof ++ (large_header an_mdat 0 18 ++ (7 ∷ 8 ∷ [])))
    ≡ some (encode a_moof, large_header an_mdat 0 18 ++ (7 ∷ 8 ∷ []))
take_pair-large_example =
    take_pair-large a_moof an_mdat 0 18 (7 ∷ 8 ∷ []) (omega arith) (omega arith) (omega arith)
      (omega arith) (omega arith)
