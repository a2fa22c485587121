-- ===== src/Float/Ticks.antt =====
-- An instance of `F64` for runs at concrete inputs: non-negative fixed-point numbers, in nanoseconds.
use dashplay_rs.Prelude.{
  ℕ, ◌+◌, ◌-◌, ◌*◌, ◌/◌, min, max, true, some, none, if◌then◌else◌, ◌^◌, ltb, leb, ◌==◌,
}
use dashplay_rs.Float.{F64}

abbrev pub ticks : F64
ticks = record {
  Value = ℕ;
  literal = λ n d. n * 1_000_000_000 / d;
  is_finite = λ v. true;
  ltb = ltb;
  leb = leb;
  eqb = λ a b. a == b;
  add = λ a b. a + b;
  sub = λ a b. a - b;
  mul = λ a b. a * b / 1_000_000_000;
  div = λ a b. a * 1_000_000_000 / b;
  neg = λ a. 0;
  abs = λ a. a;
  exp = λ a. a;
  min = λ a b. min a b;
  max = λ a b. max a b;
  clamp = λ v lo hi. max lo (min v hi);
  of_u64 = λ n. n * 1_000_000_000;
  as_secs = λ n. n;
  from_secs = λ v. if ltb v (2 ^ 64 * 1_000_000_000) then some v else none;
  ceil = λ v. (v + 999_999_999) / 1_000_000_000 * 1_000_000_000;
  floor = λ v. v / 1_000_000_000 * 1_000_000_000;
  round = λ v. (v + 500_000_000) / 1_000_000_000 * 1_000_000_000;
  to_u64 = λ v. v / 1_000_000_000;
}
