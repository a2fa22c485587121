-- ===== src/Delivered/Tracking.antt =====
-- The start index and the marks of the tracker (src/delivered_segments.rs).
use dashplay_rs.Prelude.{
  ℕ, zero, suc, ◌+◌, ◌-◌, min, ◌≤◌, ◌<◌, ◌≡◌, refl, sym, ap, ◌∙◌, Bool, true, false, Option, none,
  some, List, [], ◌∷◌, arith, if◌then◌else◌, length, drop, get_elem?, Bool-cases, inl, inr,
  length-drop,
}
use dashplay_rs.Bytes.{Bytes, eq_bytes}
use dashplay_rs.Float.{F64}
use dashplay_rs.Abr.Constraints.{eq_option}
use dashplay_rs.Manifest.Types.{TimelineSegment}
use dashplay_rs.Delivered
use dashplay_rs.Delivered.{
  SegmentKey, DeliveredSegmentTracker, key_of, eq_key, has_key, has_url, known_url, with_url,
  is_delivered, skipped, advance_start_index, mark_delivered, other_period, tolerance,
}

get_elem?-drop :
    {A : Type 0} (i j : ℕ) (xs : List A) → get_elem? (drop i xs) j ≡ get_elem? xs (i + j)
get_elem?-drop zero j xs = ap (get_elem? xs) (omega arith)
get_elem?-drop (suc i) j [] = refl
get_elem?-drop (suc i) j (x ∷ xs) =
    get_elem?-drop i j xs
    ∙ ap (get_elem? (x ∷ xs)) (let e : suc (i + j) ≡ suc i + j = omega arith in e)

eq_bytes_self : (u : Bytes) → eq_bytes u u ≡ true
eq_bytes_self [] = refl
eq_bytes_self (x ∷ xs) = ground (arith, eq_bytes_self xs)

eq_option_self : (o : Option ℕ) → eq_option o o ≡ true
eq_option_self none = refl
eq_option_self (some x) = ground arith

eq_key_self : (k : SegmentKey) → eq_key k k ≡ true
eq_key_self k = ground (arith, eq_option_self k.sub_number)

in_any : (a b : Bool) → (if a then true else if b then true else true) ≡ true
in_any true b = refl
in_any false true = refl
in_any false false = refl

module _ (fl : F64) (period_start_s : fl.Value) (t : DeliveredSegmentTracker fl.Value) where
  open fl use {Value}

  skipped-length :
      (segs : List (TimelineSegment Value)) → skipped fl segs period_start_s t ≤ length segs
  unfolding skipped
  skipped-length [] = omega arith
  skipped-length (s ∷ segs) = let tail = skipped-length segs in ground (arith, tail)

  skipped-yes :
      (s : TimelineSegment Value) (segs : List (TimelineSegment Value))
      → is_delivered fl s period_start_s t ≡ true
      → skipped fl (s ∷ segs) period_start_s t ≡ suc (skipped fl segs period_start_s t)
  unfolding skipped
  skipped-yes s segs h = rw (h, skipped)

  skipped-no :
      (s : TimelineSegment Value) (segs : List (TimelineSegment Value))
      → is_delivered fl s period_start_s t ≡ false
      → skipped fl (s ∷ segs) period_start_s t ≡ 0
  unfolding skipped
  skipped-no s segs h = rw h

  skipped-delivered :
      (segs : List (TimelineSegment Value)) (j : ℕ) (seg : TimelineSegment Value)
      → j < skipped fl segs period_start_s t
      → get_elem? segs j ≡ some seg
      → is_delivered fl seg period_start_s t ≡ true
  skipped-delivered [] j seg h e = cc
  skipped-delivered (s ∷ segs) zero seg h e =
      elim (Bool-cases (is_delivered fl s period_start_s t)) [
        | inr unsent ↦ absurd (omega (arith, skipped-no s segs unsent))
        | inl done ↦ let first : some s ≡ some seg = e in cc
      ]
  skipped-delivered (s ∷ segs) (suc i) seg h e =
      elim (Bool-cases (is_delivered fl s period_start_s t)) [
        | inr unsent ↦ absurd (omega (arith, skipped-no s segs unsent))
        | inl done ↦ skipped-delivered segs i seg (omega (arith, skipped-yes s segs done)) e
      ]

  skipped-next :
      (segs : List (TimelineSegment Value)) (seg : TimelineSegment Value)
      → get_elem? segs (skipped fl segs period_start_s t) ≡ some seg
      → is_delivered fl seg period_start_s t ≡ false
  skipped-next [] seg e = cc
  skipped-next (s ∷ segs) seg e = elim (Bool-cases (is_delivered fl s period_start_s t)) [
    | inr unsent ↦
        let first : some s ≡ some seg =
          ap (get_elem? (s ∷ segs)) (sym (skipped-no s segs unsent)) ∙ e in
        cc
    | inl done ↦
        skipped-next segs seg (ap (get_elem? (s ∷ segs)) (sym (skipped-yes s segs done)) ∙ e)
  ]

  -- The start index, moved past what has been delivered.
  pub record IsAdvanced (segments : List (TimelineSegment Value)) (start i : ℕ) : Type 0 where
    pub from : min start (length segments) ≤ i
    pub within : i ≤ length segments
    pub passed :
        (j : ℕ) (seg : TimelineSegment Value)
        → start ≤ j
        → j < i
        → get_elem? segments j ≡ some seg
        → is_delivered fl seg period_start_s t ≡ true
    pub next :
        (seg : TimelineSegment Value)
        → get_elem? segments i ≡ some seg
        → is_delivered fl seg period_start_s t ≡ false

  -- The index that a start index is advanced to stays in the list and never goes back; every segment
  -- between the two has been delivered, and the segment at the new index, if there is one, has not.
  pub advance_start_index-IsAdvanced :
      (segments : List (TimelineSegment Value)) (start : ℕ)
      → IsAdvanced segments start (advance_start_index fl segments start period_start_s t)
  unfolding advance_start_index
  advance_start_index-IsAdvanced segments start =
      let i = min start (length segments) in
      let bound = skipped-length (drop i segments) in
      let rest = length-drop i segments in
      record {
        from = omega arith;
        within = omega (arith, bound, rest);
        passed = λ j seg h k e.
            let back : i + (j - i) ≡ j = omega arith in
            skipped-delivered (drop i segments) (j - i) seg (omega arith)
              (get_elem?-drop i (j - i) segments ∙ ap (get_elem? segments) back ∙ e);
        next = λ seg e.
            skipped-next (drop i segments) seg
              (get_elem?-drop i (skipped fl (drop i segments) period_start_s t) segments ∙ e);
      }

  same_period :
      other_period fl period_start_s period_start_s ≡ false
      → other_period fl period_start_s
          (Delivered.enter_period fl period_start_s t).active_period_start_s
        ≡ false
  unfolding Delivered.enter_period
  same_period law = elim (Bool-cases (other_period fl period_start_s t.active_period_start_s)) [
    | inl moves ↦ rw moves law
    | inr stays ↦ rw stays stays
  ]

  -- A segment that has been marked as delivered in a period is delivered in that period, if the
  -- difference of a number of seconds from itself is within the tolerance.
  pub mark_delivered-is_delivered :
      (seg : TimelineSegment Value)
      → other_period fl period_start_s period_start_s ≡ false
      → is_delivered fl seg period_start_s (mark_delivered fl seg period_start_s t) ≡ true
  unfolding is_delivered mark_delivered
  mark_delivered-is_delivered seg law = rw (same_period law, eq_key_self (key_of seg)) (in_any _ _)
