-- ===== src/Manifest/Sidx/RoundTrip.antt =====
-- Parsing what has been written (src/manifest/sidx/parser.rs).
use dashplay_rs.Prelude.{
  ℕ, ◌+◌, ◌-◌, ◌*◌, ◌/◌, ◌%◌, ◌^◌, ◌<◌, ◌≡◌, refl, ap, ◌∙◌, false, List, [], ◌∷◌, ◌++◌, le→ltb,
  ◌==◌, length, length-append, append_assoc, ok, arith, Bool-cases, inl, inr,
}
use dashplay_rs.Bytes.{
  Bytes, be, be_bytes2, be_bytes4, be_bytes8, be-be_bytes2, be-be_bytes4, be-be_bytes8,
}
use dashplay_rs.Manifest.Sidx.Parser.{
  SidxReference, sidx, read_u8, read_u16, read_u24, read_u32, read_u64, read_four, read_by_version,
  read_reference, read_references, box_size_of, read_fields, within_box, parse_typed, parse,
}
use dashplay_rs.Manifest.Sidx.Wire.{
  Entry, Index, encode_entry, encode_entries, by_version, be_bytes3, encode_fields, index_size,
  encode_index, EntryFits, EntriesFit, time_bits, IndexFits, references_of, box_of,
}

read_u32-be_bytes4 : (n : ℕ) (r : Bytes) → n < 2 ^ 32 → read_u32 (be_bytes4 n ++ r) ≡ ok (n, r)
unfolding read_u32
read_u32-be_bytes4 n r h = ap (λ m. ok (m, r)) (be-be_bytes4 n h)

read_u64-be_bytes8 : (n : ℕ) (r : Bytes) → n < 2 ^ 64 → read_u64 (be_bytes8 n ++ r) ≡ ok (n, r)
unfolding read_u64
read_u64-be_bytes8 n r h = ap (λ m. ok (m, r)) (be-be_bytes8 n h)

read_u16-be_bytes2 : (n : ℕ) (r : Bytes) → n < 2 ^ 16 → read_u16 (be_bytes2 n ++ r) ≡ ok (n, r)
unfolding read_u16
read_u16-be_bytes2 n r h = ap (λ m. ok (m, r)) (be-be_bytes2 n h)

read_u16_any : (n : ℕ) (r : Bytes) → read_u16 (be_bytes2 n ++ r) ≡ ok (be (be_bytes2 n), r)
unfolding read_u16
read_u16_any n r = refl

read_by_version-by_version :
    (version n : ℕ) (r : Bytes)
    → n < 2 ^ time_bits version
    → read_by_version version (by_version version n ++ r) ≡ ok (n, r)
unfolding read_by_version
read_by_version-by_version version n r h = elim (Bool-cases (version == 0)) [
  | inl short ↦ rw short (read_u32-be_bytes4 n r (rw short at h))
  | inr wide ↦ rw wide (read_u64-be_bytes8 n r (rw wide at h))
]

read_reference-encode_entry :
    (r : SidxReference) (sap : ℕ) (rest : Bytes)
    → EntryFits (r, sap)
    → read_reference (encode_entry (r, sap) ++ rest) ≡ ok (r, rest)
unfolding read_reference read_u32
read_reference-encode_entry r sap rest (typ, size, duration) =
    let word = r.reference_type * 2 ^ 31 + r.referenced_size in
    let read : be (be_bytes4 word) ≡ word = be-be_bytes4 word (omega arith) in
    let e1 : be (be_bytes4 word) / 2 ^ 31 ≡ r.reference_type = omega arith in
    let e2 : be (be_bytes4 word) % 2 ^ 31 ≡ r.referenced_size = omega arith in
    let e3 = be-be_bytes4 r.subsegment_duration duration in cc (e1, e2, e3)

read_references-encode_entries :
    (es : List Entry) (rest : Bytes)
    → EntriesFit es
    → read_references (length es) (encode_entries es ++ rest) ≡ ok (references_of es, rest)
unfolding read_references
read_references-encode_entries [] rest h = refl
read_references-encode_entries ((r, sap) ∷ es) rest (h, hs) = rw (
  append_assoc (encode_entry (r, sap)) (encode_entries es) rest,
  read_reference-encode_entry r sap (encode_entries es ++ rest) h,
  read_references-encode_entries es rest hs,
)

module _ (i : Index) (rest : Bytes) where
  abbrev entries_left : Bytes
  entries_left = encode_entries i.entries ++ rest

  abbrev counted : Bytes
  counted = be_bytes2 (length i.entries) ++ entries_left

  abbrev after_offset : Bytes
  after_offset = be_bytes2 i.reserved ++ counted

  abbrev after_earliest : Bytes
  after_earliest = by_version i.version i.first_offset ++ after_offset

  abbrev after_timescale : Bytes
  after_timescale = by_version i.version i.earliest_presentation_time ++ after_earliest

  abbrev after_id : Bytes
  after_id = be_bytes4 i.timescale ++ after_timescale

  fields_left :
      encode_fields i ++ rest
      ≡ i.version ∷ (be_bytes3 i.flags ++ (be_bytes4 i.reference_id ++ after_id))
  fields_left =
      ap
        (λ tail.
          i.version
          ∷ (be_bytes3 i.flags ++ (be_bytes4 i.reference_id ++ (be_bytes4 i.timescale ++ tail))))
        (append_assoc (by_version i.version i.earliest_presentation_time) _ rest
          ∙ ap (◌++◌ (by_version i.version i.earliest_presentation_time))
              (append_assoc (by_version i.version i.first_offset) _ rest))

  read_fields-encode_fields :
      (size : ℕ)
      → IndexFits i
      → read_fields size (encode_fields i ++ rest)
        ≡ ok (record (box_of i) { box_size = size }, rest)
  unfolding read_fields read_u8 read_u24
  read_fields-encode_fields size fits =
      ap (read_fields size) fields_left
      ∙ rw (
        read_u32-be_bytes4 i.reference_id after_id fits.reference_id,
        read_u32-be_bytes4 i.timescale after_timescale fits.timescale,
        read_by_version-by_version i.version i.earliest_presentation_time after_earliest
            fits.earliest,
        read_by_version-by_version i.version i.first_offset after_offset fits.first_offset,
        read_u16_any i.reserved counted,
        read_u16-be_bytes2 (length i.entries) entries_left fits.count,
        read_references-encode_entries i.entries rest fits.entries,
      )

-- A `sidx` box with fields that fit their widths, whatever bytes follow it: parsing it gives the
-- fields and the references that were written, in both versions.
pub parse-encode_index :
    (i : Index) (rest : Bytes) → IndexFits i → parse (encode_index i ++ rest) ≡ ok (box_of i)
unfolding parse parse_typed read_four box_size_of within_box
parse-encode_index i rest fits =
    let total : length (encode_index i ++ rest) ≡ index_size i + length rest =
      length-append (encode_index i) rest ∙ omega arith in
    let filled : (index_size i == 0) ≡ false = ground arith in
    let small : (index_size i == 1) ≡ false = ground arith in
    rw (
      read_u32-be_bytes4 (index_size i) (sidx ++ (encode_fields i ++ rest)) fits.size,
      filled,
      small,
      le→ltb (index_size i) 8 (omega arith),
      le→ltb (length (encode_index i ++ rest)) (index_size i) (omega (arith, total)),
      read_fields-encode_fields i rest (index_size i) fits,
      le→ltb (index_size i) (length (encode_index i ++ rest) - length rest) (omega (arith, total)),
    )
