-- ===== src/Abr/Ladder.antt =====
-- What the user's constraints leave of a quality ladder (src/abr/constraints.rs).
use dashplay_rs.Prelude.{
  ℕ, ◌-◌, ◌<◌, ◌≤◌, min, ◌≡◌, ◌≢◌, ◌⊎◌, inl, inr, refl, true, false, Option, none, some, List, [],
  ◌∷◌, arith, take, Bool-cases, lt_or_le, lt→ltb, le→ltb,
}
use dashplay_rs.Abr.Constraints.{
  QualityConstraints, below_min, above_max, rung_matches_bitrate_envelope, matching, or_ladder,
  apply_user_quality_constraints, clamp_quality_index,
}

-- `All P xs`: every element has `P`.
abbrev pub All {ℓ κ} : {A : Type ℓ} → (A → Type κ) → List A → Type κ
All P [] = Unit
All P (x ∷ xs) = P x × All P xs

-- The bounds that a user sets, or none.
abbrev pub AtLeast : Option ℕ → ℕ → Type 0
AtLeast none bitrate = Unit
AtLeast (some lo) bitrate = lo ≤ bitrate

abbrev pub AtMost : Option ℕ → ℕ → Type 0
AtMost none bitrate = Unit
AtMost (some hi) bitrate = bitrate ≤ hi

abbrev pub Below : Option ℕ → ℕ → Type 0
Below none bitrate = ⊥
Below (some lo) bitrate = bitrate < lo

abbrev pub Above : Option ℕ → ℕ → Type 0
Above none bitrate = ⊥
Above (some hi) bitrate = hi < bitrate

module _ (c : QualityConstraints) where
  -- A bitrate that the bounds allow, and one that they do not.
  abbrev pub Within : ℕ → Type 0
  Within bitrate = AtLeast c.min_bitrate_bps bitrate × AtMost c.max_bitrate_bps bitrate

  abbrev pub Outside : ℕ → Type 0
  Outside bitrate = Below c.min_bitrate_bps bitrate ⊎ Above c.max_bitrate_bps bitrate

below_min-decides :
    (lo : Option ℕ) (b : ℕ)
    → ((below_min lo b ≡ true) × Below lo b) ⊎ ((below_min lo b ≡ false) × AtLeast lo b)
unfolding below_min
below_min-decides none b = inr (refl, tt)
below_min-decides (some lo) b = elim (lt_or_le b lo) [
  | inl h ↦ inl (lt→ltb b lo h, h)
  | inr h ↦ inr (le→ltb b lo h, h)
]

above_max-decides :
    (hi : Option ℕ) (b : ℕ)
    → ((above_max hi b ≡ true) × Above hi b) ⊎ ((above_max hi b ≡ false) × AtMost hi b)
unfolding above_max
above_max-decides none b = inr (refl, tt)
above_max-decides (some hi) b = elim (lt_or_le hi b) [
  | inl h ↦ inl (lt→ltb hi b h, h)
  | inr h ↦ inr (le→ltb hi b h, h)
]

envelope-decides :
    (c : QualityConstraints) (b : ℕ)
    → ((rung_matches_bitrate_envelope b c ≡ true) × Within c b)
      ⊎ ((rung_matches_bitrate_envelope b c ≡ false) × Outside c b)
unfolding rung_matches_bitrate_envelope
envelope-decides c b = elim (below_min-decides c.min_bitrate_bps b) [
  | inl (e, low) ↦ inr (rw e refl, inl low)
  | inr (e, high) ↦ elim (above_max-decides c.max_bitrate_bps b) [
    | inl (f, over) ↦ inr (rw (e, f) refl, inr over)
    | inr (f, under) ↦ inl (rw (e, f) refl, (high, under))
  ]
]

module _ {Rung : Type 0} (bitrate_bps : Rung → ℕ) (c : QualityConstraints) where
  -- The rungs within the bounds, and no others, in the order of the ladder.
  abbrev pub Kept : List Rung → List Rung → Type 0
  Kept [] left = left ≡ []
  Kept (r ∷ rs) left =
      (Within c (bitrate_bps r) × ((left' : List Rung) × (left ≡ r ∷ left') × Kept rs left'))
      ⊎ (Outside c (bitrate_bps r) × Kept rs left)

  matching-Kept : (rs : List Rung) → Kept rs (matching bitrate_bps c rs)
  unfolding matching
  matching-Kept [] = refl
  matching-Kept (r ∷ rs) = elim (envelope-decides c (bitrate_bps r)) [
    | inl (e, within) ↦ rw e (inl (within, (matching bitrate_bps c rs, refl, matching-Kept rs)))
    | inr (e, outside) ↦ rw e (inr (outside, matching-Kept rs))
  ]

  Kept-none : (rs : List Rung) → Kept rs [] → All (λ r. Outside c (bitrate_bps r)) rs
  Kept-none [] k = tt
  Kept-none (r ∷ rs) (inl (within, (left, e, k))) = cc
  Kept-none (r ∷ rs) (inr (outside, k)) = (outside, Kept-none rs k)

  -- What is left are the rungs within the bounds, or the whole ladder if all of it is outside.
  abbrev pub Filtered : List Rung → List Rung → Type 0
  Filtered ladder left =
      (Kept ladder left × (left ≢ []))
      ⊎ (All (λ r. Outside c (bitrate_bps r)) ladder × (left ≡ ladder))

  or_ladder-Filtered :
      (ladder kept : List Rung) → Kept ladder kept → Filtered ladder (or_ladder kept ladder)
  or_ladder-Filtered ladder [] k = inr (Kept-none ladder k, refl)
  or_ladder-Filtered ladder (r ∷ rs) k = inl (k, λ e. cc)

  take_one-ne-nil : (l : List Rung) → l ≢ [] → take 1 l ≢ []
  take_one-ne-nil [] h e = h refl
  take_one-ne-nil (r ∷ rs) h e = cc

  Filtered-ne-nil : (r : Rung) (rs left : List Rung) → Filtered (r ∷ rs) left → left ≢ []
  Filtered-ne-nil r rs left (inl (k, h)) e = h e
  Filtered-ne-nil r rs left (inr (outside, is)) e = cc

  -- The constraints never leave a ladder that has a rung without one. Unless data saver is on, what
  -- is left are just the rungs whose bitrates lie within the user's bounds, in their order, or the
  -- whole ladder if all of its bitrates lie outside. With data saver it is the first of these alone.
  pub constrained_ladder :
      (r : Rung) (rs : List Rung)
      → (apply_user_quality_constraints bitrate_bps (r ∷ rs) c ≢ [])
        × (c.data_saver ≡ false
            → Filtered (r ∷ rs) (apply_user_quality_constraints bitrate_bps (r ∷ rs) c))
        × (c.data_saver ≡ true
            → (left : List Rung) × Filtered (r ∷ rs) left
              × (apply_user_quality_constraints bitrate_bps (r ∷ rs) c ≡ take 1 left))
  unfolding apply_user_quality_constraints rung_matches_bitrate_envelope
  constrained_ladder r rs =
      let kept = matching bitrate_bps c (r ∷ rs) in
      let left = or_ladder kept (r ∷ rs) in
      let f : Filtered (r ∷ rs) left = or_ladder-Filtered (r ∷ rs) kept (matching-Kept (r ∷ rs)) in
      let full = Filtered-ne-nil r rs left f in
      elim (Bool-cases c.data_saver) [
        | inl e ↦ rw e (take_one-ne-nil left full, (λ h. cc), λ h. (left, f, refl))
        | inr e ↦ rw e (full, (λ h. f), λ h. cc)
      ]

-- The clamped index is an index of a ladder that has a rung. It is the decision itself where the
-- constraints force none and the decision is one; data saver forces the lowest rung, and a disabled
-- automatic choice the pinned one.
pub clamped_index :
    (q n : ℕ) (c : QualityConstraints)
    → 0 < n
    → (clamp_quality_index q n c < n)
      × (c.data_saver ≡ true → clamp_quality_index q n c ≡ 0)
      × (c.data_saver ≡ false → c.auto_switch ≡ true → q < n → clamp_quality_index q n c ≡ q)
      × ((i : ℕ)
          → c.data_saver ≡ false
          → c.auto_switch ≡ false
          → c.fixed_quality_index ≡ some i
          → clamp_quality_index q n c ≡ min i (n - 1))
unfolding clamp_quality_index
clamped_index q n c h =
    (ground arith, (λ s. ground arith), (λ s a l. ground arith), λ i s a f. ground arith)
