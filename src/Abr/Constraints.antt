-- ===== src/Abr/Constraints.antt =====
-- User constraints on the quality ladder (src/abr/constraints.rs). Of a rung only the bitrate is
-- read here; the rest of `QualityRung` is a type parameter's business, so a rung is a value with a
-- function to its bitrate.
use mathlib.Core.Option.{Option}
use dashplay_rs.Prelude.{
  ℕ, ◌-◌, min, Bool, true, false, not, ◌||◌, none, some, List, [], ◌∷◌, ltb, ◌==◌, if◌then◌else◌,
  take, unwrap_or,
}

pub record QualityConstraints : Type 0 where
  pub min_bitrate_bps : Option ℕ
  pub max_bitrate_bps : Option ℕ
  pub auto_switch : Bool
  pub fixed_quality_index : Option ℕ
  pub data_saver : Bool

-- `QualityConstraints::default`
abbrev pub default_constraints : QualityConstraints
default_constraints = record {
  min_bitrate_bps = none;
  max_bitrate_bps = none;
  auto_switch = true;
  fixed_quality_index = none;
  data_saver = false;
}

abbrev pub eq_option : Option ℕ → Option ℕ → Bool
eq_option none none = true
eq_option none (some b) = false
eq_option (some a) none = false
eq_option (some a) (some b) = a == b

abbrev pub eq_bool : Bool → Bool → Bool
eq_bool true b = b
eq_bool false b = not b

unfoldable pub ladder_filter_changed : QualityConstraints → QualityConstraints → Bool
ladder_filter_changed a b =
    not (eq_option a.min_bitrate_bps b.min_bitrate_bps)
    || not (eq_option a.max_bitrate_bps b.max_bitrate_bps)
    || not (eq_bool a.data_saver b.data_saver)

unfoldable pub below_min : Option ℕ → ℕ → Bool
below_min none bw = false
below_min (some lo) bw = ltb bw lo

unfoldable pub above_max : Option ℕ → ℕ → Bool
above_max none bw = false
above_max (some hi) bw = ltb hi bw

unfoldable pub rung_matches_bitrate_envelope : ℕ → QualityConstraints → Bool
unfolding below_min above_max
rung_matches_bitrate_envelope bw c =
    if below_min c.min_bitrate_bps bw
    then false
    else if above_max c.max_bitrate_bps bw
    then false
    else true

module _ {ℓ} {Rung : Type ℓ} where
  unfoldable pub matching : (Rung → ℕ) → QualityConstraints → List Rung → List Rung
  matching bitrate_bps c [] = []
  matching bitrate_bps c (r ∷ rs) =
      let rest = matching bitrate_bps c rs in
      if rung_matches_bitrate_envelope (bitrate_bps r) c then r ∷ rest else rest

  -- `if filtered.is_empty() { ladder } else { filtered }`
  abbrev pub or_ladder : List Rung → List Rung → List Rung
  or_ladder [] ladder = ladder
  or_ladder (r ∷ rs) ladder = r ∷ rs

  unfoldable pub apply_user_quality_constraints :
      (Rung → ℕ) → List Rung → QualityConstraints → List Rung
  unfolding matching
  apply_user_quality_constraints bitrate_bps [] c = []
  apply_user_quality_constraints bitrate_bps (r ∷ rs) c =
      let filtered = or_ladder (matching bitrate_bps c (r ∷ rs)) (r ∷ rs) in
      if c.data_saver then take 1 filtered else filtered

unfoldable pub forced_quality_index : ℕ → QualityConstraints → Option ℕ
forced_quality_index ladder_len c =
    if ladder_len == 0
    then none
    else if c.data_saver
    then some 0
    else if not c.auto_switch
    then some (min (unwrap_or c.fixed_quality_index 0) (ladder_len - 1))
    else none

unfoldable pub clamp_quality_index : ℕ → ℕ → QualityConstraints → ℕ
unfolding forced_quality_index
clamp_quality_index quality_index ladder_len c =
    if ladder_len == 0
    then 0
    else unwrap_or (forced_quality_index ladder_len c) (min quality_index (ladder_len - 1))
