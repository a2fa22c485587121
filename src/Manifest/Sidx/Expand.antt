-- ===== src/Manifest/Sidx/Expand.antt =====
-- From a `sidx` and the boxes nested in it to media segments (src/manifest/sidx/mod.rs).
use dashplay_rs.Prelude.{
  add_u64, ℕ, zero, suc, ◌+◌, ◌-◌, true, false, none, some, List, [], ◌∷◌, ◌++◌, ltb, ◌==◌,
  if◌then◌else◌, length, drop, Result, ok, err, ◌>>=◌,
}
use dashplay_rs.Bytes.{Bytes, slice}
use dashplay_rs.Float.{F64}
use dashplay_rs.Manifest.Types.{
  ManifestError, TimelineSegment, sidx_parse, hierarchical_sidx_not_supported, zero_timescale,
}
use dashplay_rs.Manifest.Sidx.Parser.{SidxReference, SidxBox, parse}
use dashplay_rs.Manifest.Sidx.Locate.{max_levels}

-- `SidxExpandCtx`, less the two that it changes.
pub record Ctx : Type 0 where
  pub index_bytes : Bytes
  pub timescale : ℕ
  pub presentation_time_offset : ℕ
  pub media_origin : ℕ

module _ (fl : F64) where
  open fl use {Value}

  -- What the expansion changes: the next number, and the segments so far.
  pub record Out : Type 0 where
    pub next_number : ℕ
    pub segments : List (TimelineSegment Value)

  -- The three positions of the loop over the references of one box.
  pub record Cursors : Type 0 where
    pub index_cursor : ℕ
    pub media_pos : ℕ
    pub presentation_time : ℕ

  unfoldable pub media_segment : Ctx → SidxReference → Cursors → ℕ → TimelineSegment Value
  media_segment ctx r at number =
      let end = add_u64 at.media_pos r.referenced_size - 1 in
      record {
        number = number;
        time = at.presentation_time;
        duration = r.subsegment_duration;
        duration_s = fl.div (fl.of_u64 r.subsegment_duration) (fl.of_u64 ctx.timescale);
        presentation_time_s =
            fl.div (fl.of_u64 (at.presentation_time - ctx.presentation_time_offset))
              (fl.of_u64 ctx.timescale);
        sub_number = none;
        resync_start_chunk = none;
        media_url = none;
        media_range = some (record { start = at.media_pos; end = end });
      }

  abbrev pub Expanded : Type 0
  Expanded = Result ManifestError Out

  -- `nested` expands the box at an offset.
  nested_reference :
      (ℕ → Out → Expanded) → SidxReference → ℕ → Result ManifestError SidxBox → Out → Expanded
  nested_reference nested r offset (err e) out = err hierarchical_sidx_not_supported
  nested_reference nested r offset (ok b) out =
      if ltb r.referenced_size b.box_size then err sidx_parse else nested offset out

  unfoldable pub expand_index_reference :
      (ℕ → Out → Expanded) → Ctx → SidxReference → ℕ → Out → Expanded
  unfolding nested_reference
  expand_index_reference nested ctx r offset out =
      if r.referenced_size == 0
      then err sidx_parse
      else if ltb (length ctx.index_bytes) (offset + r.referenced_size)
      then err hierarchical_sidx_not_supported
      else nested_reference nested r offset (parse (slice ctx.index_bytes offset r.referenced_size))
          out

  unfoldable pub past_index : SidxReference → Cursors → Cursors
  past_index r at = record at {
    index_cursor = at.index_cursor + r.referenced_size;
    presentation_time = add_u64 at.presentation_time r.subsegment_duration;
  }

  unfoldable pub past_media : SidxReference → Cursors → Cursors
  past_media r at = record at {
    media_pos = add_u64 at.media_pos r.referenced_size;
    presentation_time = add_u64 at.presentation_time r.subsegment_duration;
  }

  unfoldable pub push_segment : Ctx → SidxReference → Cursors → Out → Out
  push_segment ctx r at out = record {
    next_number = add_u64 out.next_number 1;
    segments = out.segments ++ (media_segment ctx r at out.next_number ∷ []);
  }

  unfoldable pub expand_references :
      (ℕ → Out → Expanded) → Ctx → List SidxReference → Cursors → Out → Expanded
  expand_references nested ctx [] at out = ok out
  expand_references nested ctx (r ∷ rs) at out = elim (r.reference_type == 0) [
    | true ↦ expand_references nested ctx rs (past_media r at) (push_segment ctx r at out)
    | false ↦ do
      more ← expand_index_reference nested ctx r at.index_cursor out
      expand_references nested ctx rs (past_index r at) more
  ]

  unfoldable pub cursors_of : Ctx → ℕ → SidxBox → Cursors
  cursors_of ctx offset b = record {
    index_cursor = offset + b.box_size;
    media_pos = add_u64 ctx.media_origin b.first_offset;
    presentation_time = b.earliest_presentation_time;
  }

  -- `ctx.index_bytes.get(sidx_offset..)`
  unfoldable pub parse_at : Bytes → ℕ → Result ManifestError SidxBox
  parse_at bytes offset =
      if ltb (length bytes) offset then err sidx_parse else parse (drop offset bytes)

  -- `depth > MAX_DEPTH` counted down: 33 levels.
  unfoldable pub expand_sidx : ℕ → Ctx → ℕ → Out → Expanded
  expand_sidx zero ctx offset out = err sidx_parse
  expand_sidx (suc levels) ctx offset out = do
    b ← parse_at ctx.index_bytes offset
    expand_references (expand_sidx levels ctx) ctx b.references (cursors_of ctx offset b) out

  unfoldable pub timeline_segments_from_index_blob :
      Ctx → ℕ → ℕ → Result ManifestError (List (TimelineSegment Value))
  timeline_segments_from_index_blob ctx sidx_offset start_number =
      if ctx.timescale == 0 then err zero_timescale else do
        out ←
            expand_sidx max_levels ctx sidx_offset
              (record { next_number = start_number; segments = [] })
        ok out.segments
