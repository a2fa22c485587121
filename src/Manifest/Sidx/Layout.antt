-- ===== src/Manifest/Sidx/Layout.antt =====
-- The segments of a `sidx` without nested boxes (src/manifest/sidx/mod.rs).
use dashplay_rs.Prelude.{
  add_u64, ℕ, ◌+◌, ◌-◌, ◌^◌, ◌<◌, ◌≡◌, refl, sym, ap, ◌∙◌, subst, true, false, some, List, [], ◌∷◌,
  ◌++◌, ◌==◌, length, append_assoc, append-nil, Result, ok, arith,
}
use dashplay_rs.Float.{F64}
use dashplay_rs.Manifest.Types.{ManifestError, TimelineSegment}
use dashplay_rs.Manifest.Sidx.Parser.{SidxReference, SidxBox}
use dashplay_rs.Manifest.Sidx.Expand.{
  Ctx, Out, Cursors, Expanded, media_segment, past_media, push_segment, expand_references,
  expand_sidx, parse_at, cursors_of, timeline_segments_from_index_blob,
}

-- The references are to media, none of them empty.
abbrev pub AllMedia : List SidxReference → Type 0
AllMedia [] = Unit
AllMedia (r ∷ rs) = (r.reference_type ≡ 0) × (0 < r.referenced_size) × AllMedia rs

abbrev pub total_size : List SidxReference → ℕ
total_size [] = 0
total_size (r ∷ rs) = r.referenced_size + total_size rs

abbrev pub total_duration : List SidxReference → ℕ
total_duration [] = 0
total_duration (r ∷ rs) = r.subsegment_duration + total_duration rs

-- The segments lie one behind the other: numbers, times and byte ranges go on without a gap and
-- without an overlap from the number, the position and the time given.
abbrev pub Tiles : {R : Type 0} → ℕ → ℕ → ℕ → List SidxReference → List (TimelineSegment R) → Type 0
Tiles number position time [] [] = Unit
Tiles number position time (r ∷ rs) [] = ⊥
Tiles number position time [] (s ∷ ss) = ⊥
Tiles number position time (r ∷ rs) (s ∷ ss) =
    (s.number ≡ number)
    × (s.time ≡ time)
    × (s.duration ≡ r.subsegment_duration)
    × (s.media_range ≡ some (record { start = position; end = position + r.referenced_size - 1 }))
    × Tiles (number + 1) (position + r.referenced_size) (time + r.subsegment_duration) rs ss

Tiles-moved :
    {R : Type 0} {n m p q t u : ℕ} (rs : List SidxReference) (ss : List (TimelineSegment R))
    → n ≡ m
    → p ≡ q
    → t ≡ u
    → Tiles n p t rs ss
    → Tiles m q u rs ss
Tiles-moved {m = m} {p = p} {q = q} {t = t} rs ss e f g h =
    subst (λ x. Tiles m q x rs ss) g
      (subst (λ x. Tiles m x t rs ss) f (subst (λ x. Tiles x p t rs ss) e h))

module _ (fl : F64) where
  open fl use {Value}

  -- What the references add to the segments so far.
  record IsTiled (rs : List SidxReference) (at : Cursors fl) (out : Out fl) (e : Expanded fl)
      : Type 0 where
    final : Out fl
    new : List (TimelineSegment Value)
    is : e ≡ ok final
    adds : final.segments ≡ out.segments ++ new
    tiles : Tiles out.next_number at.media_pos at.presentation_time rs new

  expand-end :
      (nested : ℕ → Out fl → Expanded fl) (ctx : Ctx) (at : Cursors fl) (out : Out fl)
      → expand_references fl nested ctx [] at out ≡ ok out
  unfolding expand_references
  expand-end nested ctx at out = refl

  expand-media :
      (nested : ℕ → Out fl → Expanded fl) (ctx : Ctx) (r : SidxReference) (rs : List SidxReference)
      (at : Cursors fl) (out : Out fl)
      → r.reference_type ≡ 0
      → expand_references fl nested ctx (r ∷ rs) at out
        ≡ expand_references fl nested ctx rs (past_media fl r at) (push_segment fl ctx r at out)
  unfolding expand_references
  expand-media nested ctx r rs at out h =
      let test : (r.reference_type == 0) ≡ true = ground (arith, h) in rw (test, expand_references)

  expand_references-IsTiled :
      (nested : ℕ → Out fl → Expanded fl) (ctx : Ctx) (rs : List SidxReference) (at : Cursors fl)
      (out : Out fl)
      → AllMedia rs
      → out.next_number + length rs < 2 ^ 64
      → at.media_pos + total_size rs < 2 ^ 64
      → at.presentation_time + total_duration rs < 2 ^ 64
      → IsTiled rs at out (expand_references fl nested ctx rs at out)
  unfolding past_media push_segment media_segment
  expand_references-IsTiled nested ctx [] at out media n p t = record {
    final = out;
    new = [];
    is = expand-end nested ctx at out;
    adds = sym (append-nil out.segments);
    tiles = tt;
  }
  expand_references-IsTiled nested ctx (r ∷ rs) at out (typ, filled, media) n p t =
      let number : add_u64 out.next_number 1 ≡ out.next_number + 1 = omega arith in
      let place : add_u64 at.media_pos r.referenced_size ≡ at.media_pos + r.referenced_size =
        omega arith in
      let time : add_u64 at.presentation_time r.subsegment_duration
          ≡ at.presentation_time + r.subsegment_duration =
        omega arith in
      let more =
        expand_references-IsTiled nested ctx rs (past_media fl r at) (push_segment fl ctx r at out)
          media (omega (arith, number)) (omega (arith, place)) (omega (arith, time)) in
      record {
        final = more.final;
        new = media_segment fl ctx r at out.next_number ∷ more.new;
        is = expand-media nested ctx r rs at out typ ∙ more.is;
        adds = more.adds ∙ append_assoc out.segments _ more.new;
        tiles = (
          refl,
          refl,
          refl,
          ap (λ e. some (record { start = at.media_pos; end = e - 1 })) place,
          Tiles-moved rs more.new number place time more.tiles,
        );
      }

  -- The segments of a timeline that begins with the number, the position and the time given.
  pub record Timeline (number position time : ℕ) (rs : List SidxReference)
      (r : Result ManifestError (List (TimelineSegment Value))) : Type 0 where
    pub segments : List (TimelineSegment Value)
    pub is : r ≡ ok segments
    pub tiles : Tiles number position time rs segments

  blob_of :
      (ctx : Ctx) (off start_number : ℕ) (b : SidxBox) (final : Out fl)
      → 0 < ctx.timescale
      → parse_at fl ctx.index_bytes off ≡ ok b
      → expand_references fl
          (expand_sidx fl 32 ctx)
          ctx
          b.references
          (cursors_of fl ctx off b)
          (record { next_number = start_number; segments = [] })
        ≡ ok final
      → timeline_segments_from_index_blob fl ctx off start_number ≡ ok final.segments
  unfolding timeline_segments_from_index_blob expand_sidx
  blob_of ctx off start_number b final scale h e =
      let nonzero : (ctx.timescale == 0) ≡ false = ground (arith, scale) in rw (nonzero, h, e)

  -- Parsed at an offset, a box without nested boxes gives a timeline: one segment for each
  -- reference, one behind the other, from the media origin and the box's offset and time on.
  pub blob-Timeline :
      (ctx : Ctx) (off start_number : ℕ) (b : SidxBox)
      → 0 < ctx.timescale
      → parse_at fl ctx.index_bytes off ≡ ok b
      → AllMedia b.references
      → start_number + length b.references < 2 ^ 64
      → ctx.media_origin + b.first_offset + total_size b.references < 2 ^ 64
      → b.earliest_presentation_time + total_duration b.references < 2 ^ 64
      → Timeline start_number
          (ctx.media_origin + b.first_offset)
          b.earliest_presentation_time
          b.references
          (timeline_segments_from_index_blob fl ctx off start_number)
  unfolding cursors_of
  blob-Timeline ctx off start_number b scale h media n p t =
      let origin : add_u64 ctx.media_origin b.first_offset ≡ ctx.media_origin + b.first_offset =
        omega arith in
      let all =
        expand_references-IsTiled (expand_sidx fl 32 ctx) ctx b.references (cursors_of fl ctx off b)
          (record { next_number = start_number; segments = [] }) media n (omega (arith, origin))
          t in
      record {
        segments = all.final.segments;
        is = blob_of ctx off start_number b all.final scale h all.is;
        tiles =
            subst
              (Tiles start_number (ctx.media_origin + b.first_offset) b.earliest_presentation_time
                b.references)
              (sym all.adds) (Tiles-moved b.references all.new refl origin refl all.tiles);
      }
