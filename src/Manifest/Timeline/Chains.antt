-- ===== src/Manifest/Timeline/Chains.antt =====
-- Sequences that play one after the other (src/manifest/timeline/mod.rs).
use dashplay_rs.Prelude.{
  ℕ, zero, suc, add_u64, mul_u64, ◌+◌, ◌-◌, ◌*◌, ◌/◌, ◌%◌, ◌^◌, ◌<◌, ◌≤◌, ◌≡◌, refl, sym, ap, ◌∙◌,
  subst, List, [], ◌∷◌, ◌++◌, length, append_assoc, append-nil, le→ltb, ok, arith,
}
use native.Mathlib.Nat.{div-add-mod}
use dashplay_rs.Float.{F64}
use dashplay_rs.Manifest.Types.{TimelineSegment}
use dashplay_rs.Manifest.Timeline.Explicit.{
  max_expansion, Grid, Progress, seconds, subsegment, subsegments, emit_segment_sequence, emitted,
  emit_once, repeat_sequence,
}
use dashplay_rs.Manifest.Timeline.Limits.{length-emitted}

module _ (fl : F64) (g : Grid) where
  open fl use {Value}

  -- The segments play one after the other, from a time to another.
  abbrev pub Chain : ℕ → List (TimelineSegment Value) → ℕ → Type 0
  Chain at [] end = at ≡ end
  Chain at (s ∷ ss) end = (s.presentation_time_s ≡ seconds fl g at) × Chain (at + s.duration) ss end

  Chain-append :
      (a b c : ℕ) (xs ys : List (TimelineSegment Value))
      → Chain a xs b
      → Chain b ys c
      → Chain a (xs ++ ys) c
  Chain-append a b c [] ys e h = subst (λ x. Chain x ys c) (sym e) h
  Chain-append a b c (x ∷ xs) ys (e, h) k = (e, Chain-append (a + x.duration) b c xs ys h k)

  subsegments-Chain :
      (t number d k i n : ℕ)
      → t + i * d + n * d < 2 ^ 64
      → Chain (t + i * d) (subsegments fl g t number d k (suc i) n) (t + i * d + n * d)
  unfolding subsegments subsegment
  subsegments-Chain t number d k i zero h = omega arith
  subsegments-Chain t number d k i (suc n) h =
      let before : suc i - 1 ≡ i = omega arith in
      let start : add_u64 t (mul_u64 (suc i - 1) d) ≡ t + i * d =
        ap (λ j. add_u64 t (mul_u64 j d)) before ∙ omega arith in
      let next : t + suc i * d ≡ t + i * d + d = omega arith in
      let end : t + suc i * d + n * d ≡ t + i * d + suc n * d = omega arith in
      let sub : suc (suc i) ≡ suc i + 1 = omega arith in
      (
        ap (seconds fl g) start,
        subst (λ e. Chain (t + i * d + d) (subsegments fl g t number d k (suc i + 1) n) e) end
            (subst
              (λ a. Chain a (subsegments fl g t number d k (suc i + 1) n) (t + suc i * d + n * d))
              next
              (subst
                (λ j.
                  Chain (t + suc i * d) (subsegments fl g t number d k j n) (t + suc i * d + n * d))
                sub (subsegments-Chain t number d k (suc i) n (omega arith)))),
      )

  emit-Chain :
      (t number d k : ℕ)
      → 0 < k
      → d % k ≡ 0
      → t + d < 2 ^ 64
      → Chain t (emit_segment_sequence fl g t number d k) (t + d)
  unfolding emit_segment_sequence
  emit-Chain t number d k filled whole h =
      let parts : k * (d / k) ≡ d = omega (arith, div-add-mod d k, whole) in
      let at : t + 0 * (d / k) ≡ t = omega arith in
      let end : t + 0 * (d / k) + k * (d / k) ≡ t + d = omega (arith, parts) in
      subst (λ e. Chain t (emit_segment_sequence fl g t number d k) e) end
        (subst
          (λ a. Chain a (emit_segment_sequence fl g t number d k) (t + 0 * (d / k) + k * (d / k)))
          at (subsegments-Chain t number (d / k) k 0 k (omega (arith, end))))

  -- The segments go on from `old` to `all`, by `n`, and play from a time to another.
  pub record Grown (from to n : ℕ) (old all : List (TimelineSegment Value)) : Type 0 where
    pub new : List (TimelineSegment Value)
    pub adds : all ≡ old ++ new
    pub counts : length all ≡ length old + n
    pub chain : Chain from new to

  pub Grown-trans :
      {a b c n m : ℕ} {xs ys zs : List (TimelineSegment Value)}
      → Grown a b n xs ys
      → Grown b c m ys zs
      → Grown a c (n + m) xs zs
  Grown-trans {a = a} {b = b} {c = c} {xs = xs} p q = record {
    new = p.new ++ q.new;
    adds = q.adds ∙ ap (λ l. l ++ q.new) p.adds ∙ append_assoc xs p.new q.new;
    counts = omega (arith, p.counts, q.counts);
    chain = Chain-append a b c p.new q.new p.chain q.chain;
  }

  pub Grown-refl : (a : ℕ) (xs : List (TimelineSegment Value)) → Grown a a 0 xs xs
  Grown-refl a xs = record {
    new = [];
    adds = sym (append-nil xs);
    counts = omega arith;
    chain = refl;
  }

  pub Grown-moved :
      {a b c n m : ℕ} {xs ys : List (TimelineSegment Value)}
      → b ≡ c
      → n ≡ m
      → Grown a b n xs ys
      → Grown a c m xs ys
  Grown-moved {a = a} {b = b} {m = m} {xs = xs} {ys = ys} e f h =
      subst (λ x. Grown a x m xs ys) e (subst (λ x. Grown a b x xs ys) f h)

  module _ (d k : ℕ) (filled : 0 < k) (whole : d % k ≡ 0) where
    emitted-Grown :
        (p : Progress fl)
        → p.time + d < 2 ^ 64
        → Grown p.time (p.time + d) k p.segments (emitted fl g d k p).segments
    unfolding emitted
    emitted-Grown p h = record {
      new = emit_segment_sequence fl g p.time p.number d k;
      adds = refl;
      counts = length-emitted fl g d k p;
      chain = emit-Chain p.time p.number d k filled whole h;
    }

    -- The sequences of an entry.
    pub record IsRepeated (n : ℕ) (p : Progress fl) : Type 0 where
      pub last : Progress fl
      pub is : repeat_sequence fl n g d k p ≡ ok last
      pub time : last.time ≡ p.time + n * d
      pub grown : Grown p.time (p.time + n * d) (n * k) p.segments last.segments

    pub repeat_sequence-IsRepeated :
        (n : ℕ) (p : Progress fl)
        → p.time + n * d < 2 ^ 64
        → length p.segments + n * k ≤ max_expansion
        → IsRepeated n p
    unfolding repeat_sequence emit_once
    repeat_sequence-IsRepeated zero p h room = record {
      last = p;
      is = refl;
      time = omega arith;
      grown = Grown-moved (omega arith) (omega arith) (Grown-refl p.time p.segments);
    }
    repeat_sequence-IsRepeated (suc n) p h room =
        let at : (emitted fl g d k p).time ≡ p.time + d = unfold emitted in omega arith in
        let first = emitted-Grown p (omega arith) in
        let more =
          repeat_sequence-IsRepeated n (emitted fl g d k p) (omega (arith, at))
            (omega (arith, first.counts)) in
        record {
          last = more.last;
          is = rw (le→ltb max_expansion (length p.segments + k) (omega arith)) more.is;
          time = omega (arith, more.time, at);
          grown = Grown-moved (omega (arith, at)) (omega arith) (
              Grown-trans first (
                subst
                  (λ a.
                    Grown a ((emitted fl g d k p).time + n * d) (n * k)
                      (emitted fl g d k p).segments more.last.segments)
                  at more.grown));
        }
