-- ===== src/Manifest/Sidx/Wire.antt =====
-- The `sidx` box of ISO/IEC 14496-12 §8.16.3, described on its own: its fields and its bytes.
use dashplay_rs.Prelude.{
  ℕ, ◌+◌, ◌*◌, ◌/◌, ◌%◌, ◌^◌, ◌<◌, List, [], ◌∷◌, ◌++◌, length, ◌==◌, if◌then◌else◌,
}
use dashplay_rs.Bytes.{Bytes, be_bytes2, be_bytes4, be_bytes8}
use dashplay_rs.Manifest.Sidx.Parser.{SidxReference, SidxBox, sidx}

-- An entry: the reference and the word of its stream access point.
abbrev pub Entry : Type 0
Entry = SidxReference × ℕ

pub record Index : Type 0 where
  pub version : ℕ
  pub flags : ℕ
  pub reference_id : ℕ
  pub timescale : ℕ
  pub earliest_presentation_time : ℕ
  pub first_offset : ℕ
  pub reserved : ℕ
  pub entries : List Entry

abbrev pub encode_entry : Entry → Bytes
encode_entry (r, sap) =
    be_bytes4 (r.reference_type * 2 ^ 31 + r.referenced_size)
    ++ (be_bytes4 r.subsegment_duration ++ be_bytes4 sap)

abbrev pub encode_entries : List Entry → Bytes
encode_entries [] = []
encode_entries (e ∷ es) = encode_entry e ++ encode_entries es

abbrev pub by_version : ℕ → ℕ → Bytes
by_version version n = if version == 0 then be_bytes4 n else be_bytes8 n

abbrev pub be_bytes3 : ℕ → Bytes
be_bytes3 n = n / 2 ^ 16 % 256 ∷ n / 2 ^ 8 % 256 ∷ n % 256 ∷ []

-- The fields behind the size and the type.
abbrev pub encode_fields : Index → Bytes
encode_fields i =
    i.version
    ∷ (be_bytes3 i.flags
        ++ (be_bytes4 i.reference_id
            ++ (be_bytes4 i.timescale
                ++ (by_version i.version i.earliest_presentation_time
                    ++ (by_version i.version i.first_offset
                        ++ (be_bytes2 i.reserved
                            ++ (be_bytes2 (length i.entries) ++ encode_entries i.entries)))))))

abbrev pub index_size : Index → ℕ
index_size i = 8 + length (encode_fields i)

abbrev pub encode_index : Index → Bytes
encode_index i = be_bytes4 (index_size i) ++ (sidx ++ encode_fields i)

abbrev pub EntryFits : Entry → Type 0
EntryFits (r, sap) =
    (r.reference_type < 2) × (r.referenced_size < 2 ^ 31) × (r.subsegment_duration < 2 ^ 32)

abbrev pub EntriesFit : List Entry → Type 0
EntriesFit [] = Unit
EntriesFit (e ∷ es) = EntryFits e × EntriesFit es

abbrev pub time_bits : ℕ → ℕ
time_bits version = if version == 0 then 32 else 64

-- Every field fits its width.
pub record IndexFits (i : Index) : Type 0 where
  pub size : index_size i < 2 ^ 32
  pub reference_id : i.reference_id < 2 ^ 32
  pub timescale : i.timescale < 2 ^ 32
  pub earliest : i.earliest_presentation_time < 2 ^ time_bits i.version
  pub first_offset : i.first_offset < 2 ^ time_bits i.version
  pub count : length i.entries < 2 ^ 16
  pub entries : EntriesFit i.entries

abbrev pub references_of : List Entry → List SidxReference
references_of [] = []
references_of ((r, sap) ∷ es) = r ∷ references_of es

-- The box that the bytes stand for.
abbrev pub box_of : Index → SidxBox
box_of i = record {
  box_size = index_size i;
  version = i.version;
  reference_id = i.reference_id;
  timescale = i.timescale;
  earliest_presentation_time = i.earliest_presentation_time;
  first_offset = i.first_offset;
  references = references_of i.entries;
}
