-- ===== src/Mp4/Wire.antt =====
-- The stream that the accumulator reads, described on its own: top-level boxes with 32-bit sizes,
-- and the fragments that they hold.
use dashplay_rs.Prelude.{
  ℕ, ◌+◌, ◌^◌, ◌<◌, Bool, Option, none, some, List, [], ◌∷◌, ◌++◌, length, if◌then◌else◌,
}
use dashplay_rs.Bytes.{Bytes, be_bytes4, eq_bytes}
use dashplay_rs.Mp4.Chunks.{moof, mdat}

-- A box: its four-character type and its payload.
pub record Box : Type 0 where
  pub k0 : ℕ
  pub k1 : ℕ
  pub k2 : ℕ
  pub k3 : ℕ
  pub payload : Bytes

abbrev pub kind : Box → Bytes
kind b = b.k0 ∷ b.k1 ∷ b.k2 ∷ b.k3 ∷ []

abbrev pub size : Box → ℕ
size b = 8 + length b.payload

-- The size, the type and the payload.
abbrev pub encode : Box → Bytes
encode b = be_bytes4 (size b) ++ (b.k0 ∷ b.k1 ∷ b.k2 ∷ b.k3 ∷ b.payload)

abbrev pub encode_all : List Box → Bytes
encode_all [] = []
encode_all (b ∷ bs) = encode b ++ encode_all bs

-- The size fits the 32-bit field.
abbrev pub AllFit : List Box → Type 0
AllFit [] = Unit
AllFit (b ∷ bs) = (size b < 2 ^ 32) × AllFit bs

abbrev pub is_moof : Box → Bool
is_moof b = eq_bytes (kind b) moof

abbrev pub is_mdat : Box → Bool
is_mdat b = eq_bytes (kind b) mdat

-- The fragments of a stream, given the `moof` that waits for its `mdat`: a `moof` with the `mdat`
-- behind it, or alone once another box has begun behind it. Other boxes are dropped, and so is a
-- `moof` that nothing follows.
unfoldable pub fragments : Option Box → List Box → List Bytes
fragments none [] = []
fragments none (b ∷ bs) = fragments (if is_moof b then some b else none) bs
fragments (some m) [] = []
fragments (some m) (b ∷ bs) =
    if is_mdat b
    then (encode m ++ encode b) ∷ fragments none bs
    else encode m ∷ fragments (if is_moof b then some b else none) bs
