-- ===== src/Abr/Examples.antt =====
-- The quality ladder at concrete inputs.
use dashplay_rs.Prelude.{ℕ, ◌<◌, ◌≡◌, refl, some, [], ◌∷◌, arith}
use dashplay_rs.Abr.Constraints.{
  QualityConstraints, default_constraints, apply_user_quality_constraints, clamp_quality_index,
  rung_matches_bitrate_envelope,
}
use dashplay_rs.Abr.Ladder
use dashplay_rs.Abr.Ladder.{Filtered}

abbrev at_most_two : QualityConstraints
at_most_two = record default_constraints { max_bitrate_bps = some 2 }

constrained_ladder_example :
    Filtered
      (λ (b : ℕ). b)
      at_most_two
      (1 ∷ 2 ∷ 3 ∷ [])
      (apply_user_quality_constraints (λ (b : ℕ). b) (1 ∷ 2 ∷ 3 ∷ []) at_most_two)
constrained_ladder_example = (Ladder.constrained_ladder (λ b. b) at_most_two 1 (2 ∷ 3 ∷ [])).1 refl

clamped_index_example : clamp_quality_index 7 3 at_most_two < 3
clamped_index_example = (Ladder.clamped_index 7 3 at_most_two (omega arith)).0

two_rungs_left :
    apply_user_quality_constraints (λ (b : ℕ). b) (1 ∷ 2 ∷ 3 ∷ []) at_most_two ≡ 1 ∷ 2 ∷ []
unfolding apply_user_quality_constraints rung_matches_bitrate_envelope
two_rungs_left = refl
