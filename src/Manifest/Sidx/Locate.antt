-- ===== src/Manifest/Sidx/Locate.antt =====
-- Finding the `sidx` in the bytes of an index, and whether all of the index is there
-- (src/manifest/sidx/mod.rs).
use dashplay_rs.Prelude.{
  add_u64, ℕ, zero, suc, ◌+◌, ◌-◌, ◌*◌, max, Bool, true, not, ◌&&◌, ◌||◌, Option, none, some, List,
  [], ◌∷◌, ltb, leb, ◌==◌, if◌then◌else◌, length, take, Result, ok, err, ◌>>=◌,
}
use dashplay_rs.Bytes.{Bytes, be, slice, eq_bytes}
use dashplay_rs.Manifest.Types.{ManifestError, sidx_parse, incomplete_sidx_index}
use dashplay_rs.Manifest.Sidx.Parser.{SidxReference, sidx, parse}

-- `data.starts_with(…)` of an EBML header or of Matroska `Cues`.
unfoldable pub looks_like_ebml_index : Bytes → Bool
looks_like_ebml_index bytes =
    eq_bytes (take 4 bytes) (0x1a ∷ 0x45 ∷ 0xdf ∷ 0xa3 ∷ [])
    || eq_bytes (take 4 bytes) (0x1c ∷ 0x53 ∷ 0xbb ∷ 0x6b ∷ [])

unfoldable pub reject_unsupported_index_container : Bytes → Result ManifestError (Unit {0})
unfolding looks_like_ebml_index
reject_unsupported_index_container bytes =
    if looks_like_ebml_index bytes then err sidx_parse else ok tt

-- The size and the type of the box at an offset.
unfoldable pub read_box_header : Bytes → ℕ → Result ManifestError (ℕ × Bytes)
read_box_header bytes off =
    let raw_size = be (slice bytes off 4) in
    let box_size = if raw_size == 0 then length bytes - off else raw_size in
    if ltb (length bytes - off) 8
    then err sidx_parse
    else if raw_size == 1
    then err sidx_parse
    else if ltb box_size 8
    then err sidx_parse
    else ok (box_size, slice bytes (off + 4) 4)

-- The last byte of `n` bytes from `off` on, in the file.
abbrev pub last_of : ℕ → ℕ → ℕ → ℕ
last_of range_start off n = add_u64 (add_u64 range_start off) n - 1

-- The last byte of a box header at `off`.
abbrev pub header_end : ℕ → ℕ → ℕ
header_end range_start off = add_u64 (add_u64 range_start off) 7

exact_header : Bytes → ℕ → Result ManifestError (ℕ × Bytes) → Result ManifestError ℕ
exact_header bytes range_start (err e) = err (incomplete_sidx_index (add_u64 range_start 7))
exact_header bytes range_start (ok (box_size, typ)) =
    if not (eq_bytes typ sidx)
    then err sidx_parse
    else if ltb (length bytes) box_size
    then err sidx_parse
    else ok 0

-- `MAX_SCAN_SKIP`
abbrev pub max_scan_skip : ℕ
max_scan_skip = 16 * 1024 * 1024

abbrev pub is_graphic : Bytes → Bool
is_graphic [] = true
is_graphic (b ∷ bs) = leb 33 b && leb b 126 && is_graphic bs

-- One round of the scan: it ends, or goes on at the next box.
pub data Scan : Type 0 where
  ends : Result ManifestError ℕ → Scan
  moves : ℕ → Scan

unfoldable pub scan_header : Bytes → ℕ → ℕ → Result ManifestError (ℕ × Bytes) → Scan
scan_header bytes range_start off (err e) =
    ends (err (incomplete_sidx_index (header_end range_start off)))
scan_header bytes range_start off (ok (box_size, typ)) =
    let fits = leb (off + box_size) (length bytes) in
    let incomplete = ends (err (incomplete_sidx_index (last_of range_start off box_size))) in
    if eq_bytes typ sidx
    then (if fits then ends (ok off) else incomplete)
    else if ltb max_scan_skip box_size || not (is_graphic typ)
    then ends (err sidx_parse)
    else if fits
    then moves (off + box_size)
    else incomplete

unfoldable pub scan_round : Bytes → ℕ → ℕ → Scan
scan_round bytes range_start off =
    if ltb off (length bytes)
    then scan_header bytes range_start off (read_box_header bytes off)
    else ends (err sidx_parse)

-- `while off < index_bytes.len() { … }`; `none` is that the fuel ran out.
unfoldable pub scan_from : ℕ → Bytes → ℕ → ℕ → Option (Result ManifestError ℕ)
scan_from zero bytes range_start off = none
scan_from (suc fuel) bytes range_start off = elim (scan_round bytes range_start off) [
  | ends r ↦ some r
  | moves next ↦ scan_from fuel bytes range_start next
]

unfoldable pub find_sidx_offset : ℕ → Bytes → Bool → ℕ → Option (Result ManifestError ℕ)
unfolding exact_header
find_sidx_offset fuel bytes exact range_start =
    if exact
    then some (exact_header bytes range_start (read_box_header bytes 0))
    else scan_from fuel bytes range_start 0

-- A reference of `walk`: where the next nested box is expected, and the end so far. `nested` is the
-- walk over the box at an offset.
unfoldable pub walk_reference :
    (ℕ → Result ManifestError ℕ) → Bytes → ℕ → SidxReference → ℕ × ℕ → Result ManifestError (ℕ × ℕ)
walk_reference nested bytes range_start r (cursor, end) =
    if r.reference_type == 0
    then ok (cursor, end)
    else if r.referenced_size == 0
    then err sidx_parse
    else if ltb (length bytes) (cursor + r.referenced_size)
    then err (incomplete_sidx_index (last_of range_start cursor r.referenced_size))
    else do nested_end ← nested cursor; ok (cursor + r.referenced_size, max end nested_end)

unfoldable pub walk_references :
    (ℕ → Result ManifestError ℕ)
    → Bytes
    → ℕ
    → List SidxReference
    → ℕ × ℕ
    → Result ManifestError (ℕ × ℕ)
walk_references nested bytes range_start [] at = ok at
walk_references nested bytes range_start (r ∷ rs) at = do
  next ← walk_reference nested bytes range_start r at
  walk_references nested bytes range_start rs next

unfoldable pub walk_box :
    (ℕ → Result ManifestError ℕ)
    → Bytes
    → ℕ
    → ℕ
    → Result ManifestError (ℕ × Bytes)
    → Result ManifestError ℕ
walk_box nested bytes range_start off (err e) =
    err (incomplete_sidx_index (header_end range_start off))
walk_box nested bytes range_start off (ok (box_size, typ)) =
    if not (eq_bytes typ sidx)
    then err sidx_parse
    else if ltb (length bytes) (off + box_size)
    then err (incomplete_sidx_index (last_of range_start off box_size))
    else do
      b ← parse (slice bytes off box_size)
      (cursor, end) ←
          walk_references nested bytes range_start b.references (off + b.box_size, off + b.box_size)
      ok (max end (off + box_size))

-- `depth > MAX_DEPTH` counted down: 33 levels.
unfoldable pub walk : ℕ → Bytes → ℕ → ℕ → Result ManifestError ℕ
walk zero bytes range_start off = err sidx_parse
walk (suc levels) bytes range_start off =
    walk_box (walk levels bytes range_start) bytes range_start off (read_box_header bytes off)

abbrev pub max_levels : ℕ
max_levels = 33

unfoldable pub ensure_index_segment_complete : Bytes → ℕ → ℕ → Result ManifestError (Unit {0})
ensure_index_segment_complete bytes sidx_off range_start = do
  _ ← walk max_levels bytes range_start sidx_off
  ok tt
