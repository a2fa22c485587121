-- ===== src/Manifest/Sidx/Parser.antt =====
-- The parser of `sidx` boxes (src/manifest/sidx/parser.rs). The reader is the bytes that are left.
use dashplay_rs.Prelude.{
  ℕ, zero, suc, ◌-◌, ◌/◌, ◌%◌, ◌^◌, not, ◌||◌, List, [], ◌∷◌, ltb, ◌==◌, if◌then◌else◌, length,
  Result, ok, err, ◌>>=◌,
}
use dashplay_rs.Bytes.{Bytes, be, eq_bytes}
use dashplay_rs.Manifest.Types.{ManifestError, sidx_parse}

-- One reference entry: type 0 is media, type 1 a nested `sidx`.
pub record SidxReference : Type 0 where
  pub reference_type : ℕ
  pub referenced_size : ℕ
  pub subsegment_duration : ℕ

pub record SidxBox : Type 0 where
  pub box_size : ℕ
  pub version : ℕ
  pub reference_id : ℕ
  pub timescale : ℕ
  pub earliest_presentation_time : ℕ
  pub first_offset : ℕ
  pub references : List SidxReference

abbrev pub sidx : Bytes
sidx = b's' ∷ b'i' ∷ b'd' ∷ b'x' ∷ []

-- A value read, and what is left; it fails at the end of the bytes.
abbrev pub Read : Type 0 → Type 0
Read A = Result ManifestError (A × Bytes)

unfoldable pub read_u8 : Bytes → Read ℕ
read_u8 (a ∷ r) = ok (a, r)
read_u8 _ = err sidx_parse

unfoldable pub read_u16 : Bytes → Read ℕ
read_u16 (a ∷ b ∷ r) = ok (be (a ∷ b ∷ []), r)
read_u16 _ = err sidx_parse

unfoldable pub read_u24 : Bytes → Read ℕ
read_u24 (a ∷ b ∷ c ∷ r) = ok (be (a ∷ b ∷ c ∷ []), r)
read_u24 _ = err sidx_parse

unfoldable pub read_u32 : Bytes → Read ℕ
read_u32 (a ∷ b ∷ c ∷ d ∷ r) = ok (be (a ∷ b ∷ c ∷ d ∷ []), r)
read_u32 _ = err sidx_parse

-- `read_exact` into four bytes.
unfoldable pub read_four : Bytes → Read Bytes
read_four (a ∷ b ∷ c ∷ d ∷ r) = ok (a ∷ b ∷ c ∷ d ∷ [], r)
read_four _ = err sidx_parse

unfoldable pub read_u64 : Bytes → Read ℕ
read_u64 (a ∷ b ∷ c ∷ d ∷ e ∷ f ∷ g ∷ h ∷ r) = ok (be (a ∷ b ∷ c ∷ d ∷ e ∷ f ∷ g ∷ h ∷ []), r)
read_u64 _ = err sidx_parse

-- A time or an offset: 32 bits in version 0, else 64.
unfoldable pub read_by_version : ℕ → Bytes → Read ℕ
read_by_version version r = if version == 0 then read_u32 r else read_u64 r

unfoldable pub read_reference : Bytes → Read SidxReference
read_reference r = do
  (chunk, r1) ← read_u32 r
  (duration, r2) ← read_u32 r1
  (_, r3) ← read_u32 r2
  ok (
    record {
      reference_type = chunk / 2 ^ 31;
      referenced_size = chunk % 2 ^ 31;
      subsegment_duration = duration;
    },
    r3,
  )

unfoldable pub read_references : ℕ → Bytes → Read (List SidxReference)
read_references zero r = ok ([], r)
read_references (suc n) r = do
  (reference, r1) ← read_reference r
  (more, r2) ← read_references n r1
  ok (reference ∷ more, r2)

-- The size of the box, from the size field and the bytes there are.
unfoldable pub box_size_of : ℕ → ℕ → Result ManifestError ℕ
box_size_of raw_size available =
    let size = if raw_size == 0 then available else raw_size in
    if raw_size == 1
    then err sidx_parse
    else if ltb size 8 || ltb available size
    then err sidx_parse
    else ok size

-- The fields behind the size and the type.
unfoldable pub read_fields : ℕ → Bytes → Read SidxBox
read_fields box_size r = do
  (version, r1) ← read_u8 r
  (_, r2) ← read_u24 r1
  (reference_id, r3) ← read_u32 r2
  (timescale, r4) ← read_u32 r3
  (earliest, r5) ← read_by_version version r4
  (first_offset, r6) ← read_by_version version r5
  (_, r7) ← read_u16 r6
  (count, r8) ← read_u16 r7
  (references, r9) ← read_references count r8
  ok (
    record {
      box_size = box_size;
      version = version;
      reference_id = reference_id;
      timescale = timescale;
      earliest_presentation_time = earliest;
      first_offset = first_offset;
      references = references;
    },
    r9,
  )

-- The reader's position is the number of bytes that are gone.
unfoldable pub within_box : ℕ → SidxBox × Bytes → Result ManifestError SidxBox
within_box available (b, left) =
    if ltb b.box_size (available - length left) then err sidx_parse else ok b

unfoldable pub parse_typed : Bytes → ℕ → Bytes → Bytes → Result ManifestError SidxBox
parse_typed bytes raw_size box_type r = if not (eq_bytes box_type sidx) then err sidx_parse else do
  box_size ← box_size_of raw_size (length bytes)
  (b, left) ← read_fields box_size r
  within_box (length bytes) (b, left)

unfoldable pub parse : Bytes → Result ManifestError SidxBox
parse bytes = do
  (raw_size, r1) ← read_u32 bytes
  (box_type, r2) ← read_four r1
  parse_typed bytes raw_size box_type r2
