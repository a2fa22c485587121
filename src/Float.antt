-- ===== src/Float.antt =====
-- Rust's `f64`, which antt does not have: the type and the operations that the code uses, as a
-- parameter with no law assumed. A theorem that needs a law of `f64` names it as a hypothesis.
-- Durations are whole nanoseconds, as in Rust.
pub mod Ticks
use dashplay_rs.Prelude.{ℕ, Bool, Option}

pub record F64 : Type 1 where
  pub Value : Type 0
  -- the literal numerator / denominator
  pub literal : ℕ → ℕ → Value
  pub is_finite : Value → Bool
  pub ltb : Value → Value → Bool
  pub leb : Value → Value → Bool
  pub eqb : Value → Value → Bool
  pub add : Value → Value → Value
  pub sub : Value → Value → Value
  pub mul : Value → Value → Value
  pub div : Value → Value → Value
  pub neg : Value → Value
  pub abs : Value → Value
  pub exp : Value → Value
  pub min : Value → Value → Value
  pub max : Value → Value → Value
  -- `f64::clamp`
  pub clamp : Value → Value → Value → Value
  -- `x as f64` for a `u64` x
  pub of_u64 : ℕ → Value
  -- `Duration::as_secs_f64`, and `Duration::from_secs_f64`; `none` is that it panics
  pub as_secs : ℕ → Value
  pub from_secs : Value → Option ℕ
  pub ceil : Value → Value
  pub floor : Value → Value
  pub round : Value → Value
  -- `x as u64`, which saturates
  pub to_u64 : Value → ℕ
