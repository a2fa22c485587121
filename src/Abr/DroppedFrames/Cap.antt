-- ===== src/Abr/DroppedFrames/Cap.antt =====
-- The cap that a history gives (src/abr/dropped_frames.rs).
use dashplay_rs.Prelude.{
  ℕ, suc, ◌+◌, ◌-◌, ◌<◌, ◌≤◌, ◌≡◌, refl, sym, ap, ◌∙◌, true, false, not, ◌||◌, Option, none, some,
  List, [], ◌∷◌, ltb, lt→ltb, le→ltb, ==_iff, ◌==◌, if◌then◌else◌, if_rule, arith, Bool-cases, inl,
  inr, ◌⊎◌, lt_or_le, unwrap_or,
}
use dashplay_rs.Float.{F64}
use dashplay_rs.Abr.DroppedFrames.{
  QualityFrameStats, ByQuality, attribute, DroppedFramesParams, History, with_params,
  set_active_quality, attributed, push, exceeds, cap_of, quality_cap, Call, pushes, activates, call,
  call_all,
}

-- The keys go up, from a bound on.
abbrev pub SortedFrom : ℕ → ByQuality → Type 0
SortedFrom n [] = Unit
SortedFrom n ((k, stats) ∷ rest) = (n ≤ k) × SortedFrom (k + 1) rest

SortedFrom-attribute :
    (n q dropped total : ℕ) (l : ByQuality)
    → n ≤ q
    → SortedFrom n l
    → SortedFrom n (attribute q dropped total l)
unfolding attribute
SortedFrom-attribute n q dropped total [] low s = (low, tt)
SortedFrom-attribute n q dropped total ((k, stats) ∷ rest) low (h, s) = elim (lt_or_le q k) [
  | inl before ↦
      let other : (q == k) ≡ false = ground arith in
      rw (other, lt→ltb q k before) (low, (omega arith, s))
  | inr above ↦ elim (lt_or_le k q) [
    | inl past ↦
        let other : (q == k) ≡ false = ground arith in
        rw (other, le→ltb q k above)
          (h, SortedFrom-attribute (k + 1) q dropped total rest (omega arith) s)
    | inr below ↦ let same : (q == k) ≡ true = ground arith in rw same (h, s)
  ]
]

-- The statistics of a quality.
unfoldable pub lookup : ℕ → ByQuality → Option QualityFrameStats
lookup q [] = none
lookup q ((k, stats) ∷ rest) = let behind = lookup q rest in if q == k then some stats else behind

lookup_below : (n q : ℕ) (l : ByQuality) → q < n → SortedFrom n l → lookup q l ≡ none
unfolding lookup
lookup_below n q [] h s = refl
lookup_below n q ((k, stats) ∷ rest) h (low, s) =
    let other : (q == k) ≡ false = ground arith in
    rw other (lookup_below (k + 1) q rest (omega arith) s)

none-some : {A : Type 0} {a : A} → none ≡ some a → ⊥
none-some e = ground (arith, e)

module _ (fl : F64) where
  -- The lowest quality above the lowest rung that drops too many frames, less one; or none does.
  abbrev pub IsCap : DroppedFramesParams fl → ByQuality → Option ℕ → Type 0
  IsCap p l none =
      (q : ℕ) (stats : QualityFrameStats)
      → 0 < q
      → lookup q l ≡ some stats
      → exceeds fl p stats ≡ false
  IsCap p l (some c) =
      ((stats : QualityFrameStats) × (lookup (suc c) l ≡ some stats) × (exceeds fl p stats ≡ true))
      × ((q : ℕ) (stats : QualityFrameStats)
          → 0 < q
          → q ≤ c
          → lookup q l ≡ some stats
          → exceeds fl p stats ≡ false)

  -- An entry that is passed over: the lowest rung, or one that does not drop too many.
  Passed : DroppedFramesParams fl → ℕ → QualityFrameStats → Type 0
  Passed p k stats = (k ≡ 0) ⊎ (exceeds fl p stats ≡ false)

  module _ (p : DroppedFramesParams fl) (k : ℕ) (stats : QualityFrameStats) (rest : ByQuality) where
    -- What holds of the qualities behind an entry that is passed over holds of it too.
    behind_Passed :
        Passed p k stats
        → (q : ℕ) (other : QualityFrameStats) → 0 < q
        → (lookup q rest ≡ some other → exceeds fl p other ≡ false)
        → lookup q ((k, stats) ∷ rest) ≡ some other
        → exceeds fl p other ≡ false
    unfolding lookup Passed
    behind_Passed passed q other h more e = elim (Bool-cases (q == k)) [
      | inl same ↦
          let is : some stats ≡ some other =
            sym (ap (λ b. if b then some stats else lookup q rest) same) ∙ e in
          let eq : stats ≡ other = ap (λ o. unwrap_or o stats) is in
          elim passed [
            | inl zero_k ↦ absurd (omega (arith, (==_iff q k).0 same, zero_k, h))
            | inr low ↦ ap (exceeds fl p) (sym eq) ∙ low
          ]
      | inr differs ↦ more (sym (ap (λ b. if b then some stats else lookup q rest) differs) ∙ e)
    ]

    found_behind :
        (q : ℕ) (found : QualityFrameStats)
        → SortedFrom (k + 1) rest
        → lookup q rest ≡ some found
        → lookup q ((k, stats) ∷ rest) ≡ some found
    unfolding lookup
    found_behind q found s at = elim (lt_or_le k q) [
      | inl past ↦ let other : (q == k) ≡ false = ground arith in rw other at
      | inr low ↦ absurd (none-some (sym (lookup_below (k + 1) q rest (omega arith) s) ∙ at))
    ]

    IsCap-Passed :
        (r : Option ℕ)
        → Passed p k stats
        → SortedFrom (k + 1) rest
        → IsCap p rest r
        → IsCap p ((k, stats) ∷ rest) r
    IsCap-Passed none passed s cap = λ q other h e. behind_Passed passed q other h (cap q other h) e
    IsCap-Passed (some c) passed s ((found, at, over), cap) = (
      (found, found_behind (suc c) found s at, over),
      λ q other h low e. behind_Passed passed q other h (cap q other h low) e,
    )

    IsCap-found :
        0 < k
        → SortedFrom (k + 1) rest
        → exceeds fl p stats ≡ true
        → IsCap p ((k, stats) ∷ rest) (some (k - 1))
    unfolding lookup
    IsCap-found filled s over =
        let same : (suc (k - 1) == k) ≡ true = ground arith in
        (
          (stats, rw same refl, over),
          λ q other h low e.
              let differs : (q == k) ≡ false = ground arith in
              absurd (
                none-some (
                  sym (lookup_below (k + 1) q rest (omega arith) s)
                  ∙ sym (ap (λ b. if b then some stats else lookup q rest) differs)
                  ∙ e)),
        )

  cap_of-IsCap :
      (p : DroppedFramesParams fl) (n : ℕ) (l : ByQuality)
      → SortedFrom n l
      → IsCap p l (cap_of fl p l)
  unfolding cap_of lookup Passed
  cap_of-IsCap p n [] s = λ q stats h e. absurd (none-some e)
  cap_of-IsCap p n ((k, stats) ∷ rest) (low, s) =
      let behind = cap_of-IsCap p (k + 1) rest s in
      elim (lt_or_le 0 k) [
        | inr lowest ↦
            let zero_k : (k == 0) ≡ true = ground arith in
            rw zero_k (IsCap-Passed p k stats rest (cap_of fl p rest) (inl (omega arith)) s behind)
        | inl filled ↦
            let nonzero : (k == 0) ≡ false = ground arith in
            elim (Bool-cases (exceeds fl p stats)) [
              | inl over ↦ rw (nonzero, over) (IsCap-found p k stats rest filled s over)
              | inr under ↦
                  rw (nonzero, under)
                    (IsCap-Passed p k stats rest (cap_of fl p rest) (inr under) s behind)
            ]
      ]

  IsSorted : History fl → Type 0
  IsSorted h = SortedFrom 0 h.by_quality

  attributed-Sorted :
      (active : Option ℕ) (dropped total : ℕ) (l : ByQuality)
      → SortedFrom 0 l
      → SortedFrom 0 (attributed fl active dropped total l)
  unfolding attributed
  attributed-Sorted none dropped total l s = s
  attributed-Sorted (some q) dropped total l s =
      SortedFrom-attribute 0 q dropped total l (omega arith) s

  call-IsSorted : (c : Call) (h : History fl) → IsSorted h → IsSorted (call fl c h)
  unfolding push set_active_quality IsSorted
  call-IsSorted (activates q) h s = s
  call-IsSorted (pushes dropped total) h s =
      if_rule (λ (x : History fl). SortedFrom 0 x.by_quality) (not h.has_baseline) s
        (if_rule (λ (x : History fl). SortedFrom 0 x.by_quality)
          (ltb dropped h.last_dropped || ltb total h.last_total) s
          (if_rule (λ (x : History fl). SortedFrom 0 x.by_quality) _ s
            (attributed-Sorted h.active_quality_index _ _ h.by_quality s)))

  call_all-IsSorted : (cs : List Call) (h : History fl) → IsSorted h → IsSorted (call_all fl cs h)
  call_all-IsSorted [] h s = s
  call_all-IsSorted (c ∷ cs) h s = call_all-IsSorted cs (call fl c h) (call-IsSorted c h s)

  -- After any calls on a new history: the cap is one below the lowest quality, the lowest rung left
  -- aside, that has enough samples and drops too many frames; there is no cap if there is no such
  -- quality.
  pub quality_cap-IsCap :
      (p : DroppedFramesParams fl) (cs : List Call)
      → IsCap
          (call_all fl cs (with_params fl p)).params
          (call_all fl cs (with_params fl p)).by_quality
          (quality_cap fl (call_all fl cs (with_params fl p)))
  unfolding quality_cap IsSorted with_params
  quality_cap-IsCap p cs =
      cap_of-IsCap (call_all fl cs (with_params fl p)).params 0
        (call_all fl cs (with_params fl p)).by_quality (call_all-IsSorted cs (with_params fl p) tt)
