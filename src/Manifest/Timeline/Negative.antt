-- ===== src/Manifest/Timeline/Negative.antt =====
-- A negative `S@r` with an `S@t` behind it (src/manifest/timeline/mod.rs).
use dashplay_rs.Prelude.{
  ℕ, zero, suc, pos, negsuc, ◌+◌, ◌*◌, ◌^◌, ◌<◌, ◌≤◌, ◌≡◌, refl, sym, ap, ◌∙◌, subst, none, some,
  List, unwrap_or, or_option, length, le→ltb, le→leb, lt→leb, ok, ◌>>=◌, and_then, and_then-cong_on,
  arith,
}
use dashplay_rs.Float.{F64}
use dashplay_rs.Manifest.Timeline.{S, TimelineBuildContext}
use dashplay_rs.Manifest.Timeline.Explicit.{
  max_expansion, Grid, checked, State, Progress, emitted, emit_once, repeat_sequence,
  next_segment_t, is_reached, turn, repeat_until, repeated, entered, left, next_t,
  negative_r_repeat_end, expand_entry,
}
use dashplay_rs.Manifest.Timeline.Limits.{length-emitted}

module _ (fl : F64) (g : Grid) (d k : ℕ) where
  emit_once-room :
      (p : Progress fl)
      → length p.segments + k ≤ max_expansion
      → emit_once fl g d k p ≡ ok (emitted fl g d k p)
  unfolding emit_once
  emit_once-room p room = rw (le→ltb max_expansion (length p.segments + k) room) refl

  repeat_until-counted :
      (n fuel bound : ℕ) (p : Progress fl)
      → n < fuel
      → bound ≤ p.time + n * d
      → p.time + n * d < bound + d
      → p.time + n * d < 2 ^ 64
      → length p.segments + suc n * k ≤ max_expansion
      → repeat_until fl fuel g (next_segment_t bound) d k p ≡ some (repeat_sequence fl n g d k p)
  unfolding repeat_until turn is_reached repeat_sequence
  repeat_until-counted n zero bound p f low high h room = absurd (omega arith)
  repeat_until-counted zero (suc fuel) bound p f low high h room =
      rw
        (
          le→ltb max_expansion (length p.segments + k) (omega arith),
          le→leb bound p.time (omega arith),
          repeat_until,
        )
        refl
  repeat_until-counted (suc n) (suc fuel) bound p f low high h room =
      let room_once = le→ltb max_expansion (length p.segments + k) (omega arith) in
      let at : (emitted fl g d k p).time ≡ p.time + d = unfold emitted in omega arith in
      let grown = length-emitted fl g d k p in
      rw (room_once, lt→leb bound p.time (omega arith), repeat_until)
        (repeat_until-counted n fuel bound (emitted fl g d k p) (omega arith) (omega (arith, at))
            (omega (arith, at)) (omega (arith, at)) (omega (arith, grown))
          ∙ ap some
              (sym (ap (λ r. r >>= repeat_sequence fl n g d k) (emit_once-room p (omega arith)))))

checked_ok : (s : S) (k : ℕ) → some (checked s) ≡ some (ok k) → checked s ≡ ok k
checked_ok s k e = ap (λ o. elim o [ none ↦ checked s | some r ↦ r ]) e

checked_k : (s : S) (k : ℕ) → checked s ≡ ok k → k ≡ unwrap_or s.k 1
unfolding checked
checked_k s k e = ground (arith, e)

module _ (fl : F64) (fuel : ℕ) (g : Grid) (ctx : TimelineBuildContext fl.Value) where
  repeated-counted :
      (tail : List S) (d k bound m n : ℕ) (p : Progress fl)
      → next_t fl tail ≡ some bound
      → suc n < fuel
      → p.time + n * d < bound
      → bound ≤ p.time + suc n * d
      → p.time + suc n * d < 2 ^ 64
      → length p.segments + suc (suc n) * k ≤ max_expansion
      → repeated fl fuel g ctx tail d k (negsuc m) p ≡ repeated fl fuel g ctx tail d k (pos n) p
  unfolding repeated negative_r_repeat_end
  repeated-counted tail d k bound m n p next f before after h room =
      rw (next, negative_r_repeat_end)
        (repeat_until-counted fl g d k (suc n) fuel bound p f after (omega arith) h room)

  -- A negative `S@r` with a later entry that has `@t`: the entry repeats until its next sequence
  -- would begin at that `@t` or behind it. It is then the same as an entry with that count, given
  -- room for one sequence more.
  pub expand_entry-next_t :
      (tail : List S) (s : S) (st : State fl) (bound m n : ℕ)
      → next_t fl tail ≡ some bound
      → s.r ≡ some (negsuc m)
      → suc n < fuel
      → unwrap_or (or_option s.t st.current_time) 0 + n * s.d < bound
      → bound ≤ unwrap_or (or_option s.t st.current_time) 0 + suc n * s.d
      → unwrap_or (or_option s.t st.current_time) 0 + suc n * s.d < 2 ^ 64
      → length st.segments + suc (suc n) * unwrap_or s.k 1 ≤ max_expansion
      → expand_entry fl fuel g ctx tail s st
        ≡ expand_entry fl fuel g ctx tail (record s { r = some (pos n) }) st
  unfolding expand_entry entered checked
  expand_entry-next_t tail s st bound m n next r f before after h room =
      let same_k : checked (record s { r = some (pos n) }) ≡ checked s = unfold checked in refl in
      rw (same_k, r)
        (and_then-cong_on (some (checked s)) λ k e.
          let is_k : k ≡ unwrap_or s.k 1 = checked_k s k (checked_ok s k e) in
          ap (λ o. and_then o (λ p. some (ok (left fl p))))
            (repeated-counted tail s.d k bound m n (entered fl s st) next f before after h
              (subst (λ j. length st.segments + suc (suc n) * j ≤ max_expansion) (sym is_k) room)))
