-- ===== src/Mp4/Chunks.antt =====
-- The accumulator of CMAF chunks (src/mp4/partial_segment.rs). The buffer is the state. Sums of an
-- offset and a box size wrap as `usize` does in a release build, so the search for a `moof` is a
-- loop that may not end: it runs on fuel, and the proofs say when the fuel is enough.

use dashplay_rs.Prelude.{
  ℕ, zero, suc, ◌+◌, ◌||◌, Option, none, some, List, [], ◌∷◌, ◌++◌, ltb, if◌then◌else◌, length,
  take, drop,
}
use dashplay_rs.Bytes.{Bytes, eq_bytes, usize_add}
use dashplay_rs.Mp4.Header.{read_box_size, box_type_at}

abbrev pub moof : Bytes
moof = b'm' ∷ b'o' ∷ b'o' ∷ b'f' ∷ []

abbrev pub mdat : Bytes
mdat = b'm' ∷ b'd' ∷ b'a' ∷ b't' ∷ []

-- One round of the search: give up, leave the loop at the offset, or go on at the next box.
pub data Round : Type 0 where
  give_up : Round
  leave : Round
  go_on : ℕ → Round

unfoldable pub round_at : Bytes → ℕ → Option (ℕ × ℕ) → Round
round_at bytes offset none = give_up
round_at bytes offset (some (box_size, header_len)) =
    if ltb box_size header_len || ltb (length bytes) (usize_add offset box_size)
    then give_up
    else (elim (box_type_at bytes offset header_len) [
      | none ↦ give_up
      | some ty ↦ if eq_bytes ty moof then leave else go_on (usize_add offset box_size)
    ])

unfoldable pub search_round : Bytes → ℕ → Round
search_round bytes offset =
    if ltb (length bytes) (offset + 8)
    then leave
    else round_at bytes offset (read_box_size bytes offset)

-- Where the search ends: `gone` is the function's early return, `spins` that the fuel ran out.
pub data Search : Type 0 where
  spins : Search
  gone : Search
  found : ℕ → Search

-- `while offset + 8 <= data.len() { … }`
unfoldable pub skip_to_moof : ℕ → Bytes → ℕ → Search
skip_to_moof zero bytes offset = spins
skip_to_moof (suc fuel) bytes offset = elim (search_round bytes offset) [
  | give_up ↦ gone
  | leave ↦ found offset
  | go_on next ↦ skip_to_moof fuel bytes next
]

-- The box behind the `moof`, whose header is at `moof_end`: what is taken, and the rest.
second_box : Bytes → ℕ → Option (ℕ × ℕ) → Option (Bytes × Bytes)
second_box bytes moof_end none = none
second_box bytes moof_end (some (mdat_size, mdat_header)) =
    let end = usize_add moof_end mdat_size in
    if ltb mdat_size mdat_header then none else (elim (box_type_at bytes moof_end mdat_header) [
      | none ↦ none
      | some ty ↦
          if eq_bytes ty mdat
          then (if ltb (length bytes) end then none else some (take end bytes, drop end bytes))
          else some (take moof_end bytes, drop moof_end bytes)
    ])

first_box : Bytes → Option (ℕ × ℕ) → Option (Bytes × Bytes)
unfolding second_box
first_box bytes none = none
first_box bytes (some (moof_size, moof_header)) =
    if ltb moof_size moof_header || ltb (length bytes) moof_size
    then none
    else if ltb (length bytes) (moof_size + 8)
    then none
    else second_box bytes moof_size (read_box_size bytes moof_size)

-- From a buffer that begins with the `moof`.
unfoldable pub take_pair : Bytes → Option (Bytes × Bytes)
unfolding first_box
take_pair bytes = first_box bytes (read_box_size bytes 0)

-- The fragment, if there is one, and the buffer after the call.
abbrev pub Taken : Type 0
Taken = Option Bytes × Bytes

unfoldable pub keep_or_take : Bytes → Option (Bytes × Bytes) → Taken
keep_or_take bytes none = (none, bytes)
keep_or_take bytes (some (fragment, rest)) = (some fragment, rest)

-- The leading boxes are dropped once a `moof` has been found, whether or not it is complete.
unfoldable pub after_search : Bytes → Search → Option Taken
after_search bytes spins = none
after_search bytes gone = some (none, bytes)
after_search bytes (found offset) =
    if ltb (length bytes) (offset + 8)
    then some (none, bytes)
    else some (keep_or_take (drop offset bytes) (take_pair (drop offset bytes)))

-- `try_take_fragment`; `none` means that the search had not ended when the fuel ran out.
unfoldable pub try_take_fragment : ℕ → Bytes → Option Taken
try_take_fragment fuel bytes =
    if ltb (length bytes) 8
    then some (none, bytes)
    else after_search bytes (skip_to_moof fuel bytes 0)

-- `drain_fragments`; the fuel bounds the fragments and each search.
unfoldable pub drain_fragments : ℕ → ℕ → Bytes → Option (List Bytes × Bytes)
drain_fragments zero fuel bytes = none
drain_fragments (suc rounds) fuel bytes = elim (try_take_fragment fuel bytes) [
  | none ↦ none
  | some (none, rest) ↦ some ([], rest)
  | some (some fragment, rest) ↦ elim (drain_fragments rounds fuel rest) [
    | none ↦ none
    | some (fragments, left) ↦ some (fragment ∷ fragments, left)
  ]
]

-- `push` for a chunk of the body, then `drain_fragments`, for each chunk.
unfoldable pub feed : ℕ → List Bytes → Bytes → Option (List Bytes × Bytes)
feed fuel [] buffer = some ([], buffer)
feed fuel (chunk ∷ chunks) buffer = elim (drain_fragments fuel fuel (buffer ++ chunk)) [
  | none ↦ none
  | some (fragments, rest) ↦ elim (feed fuel chunks rest) [
    | none ↦ none
    | some (later, left) ↦ some (fragments ++ later, left)
  ]
]

-- `finish`, when the body has ended.
unfoldable pub finish : ℕ → Bytes → Option (Option Bytes)
finish fuel [] = some none
finish fuel (b ∷ bs) = elim (try_take_fragment fuel (b ∷ bs)) [
  | none ↦ none
  | some (fragment, rest) ↦ some fragment
]

with_tail : List Bytes → Option (Option Bytes) → Option (List Bytes)
with_tail fragments none = none
with_tail fragments (some none) = some fragments
with_tail fragments (some (some tail)) = some (fragments ++ tail ∷ [])

-- The fragments of a whole body that arrives in chunks (the loop of `fetch_cmaf_fragments`).
unfoldable pub body_fragments : ℕ → List Bytes → Option (List Bytes)
unfolding with_tail
body_fragments fuel chunks = elim (feed fuel chunks []) [
  | none ↦ none
  | some (fragments, left) ↦ with_tail fragments (finish fuel left)
]
