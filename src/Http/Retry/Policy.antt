-- ===== src/Http/Retry/Policy.antt =====
-- The policies of the configurations that can be built (src/http/retry.rs).
use native.Mathlib.Nat.{div-le_self, mul-le-mul_left}
use dashplay_rs.Prelude.{ℕ, ◌*◌, ◌/◌, min, max, ◌≤◌, ◌≡◌, refl, true, false, some, arith, ◌==◌}
use dashplay_rs.Http.Retry
use dashplay_rs.Http.Retry.{
  HttpRequestKind, HttpRetryConfig, HttpRetryPolicy, default_config, disabled, policy, base_policy,
  scaled, u32_max,
}

-- A configuration that the constructors and builders make.
pub data Built : HttpRetryConfig → Type 0 where
  defaults : Built default_config
  disables : Built disabled
  media_attempts : (n : ℕ) {c : HttpRetryConfig} → Built c → Built (Retry.with_media_attempts n c)
  media_interval : (d : ℕ) {c : HttpRetryConfig} → Built c → Built (Retry.with_media_interval d c)
  manifest_attempts :
      (n : ℕ) {c : HttpRetryConfig} → Built c → Built (Retry.with_manifest_attempts n c)
  manifest_interval :
      (d : ℕ) {c : HttpRetryConfig} → Built c → Built (Retry.with_manifest_interval d c)
  multiply :
      (n : ℕ) {c : HttpRetryConfig} → Built c → Built (Retry.with_low_latency_multiply_factor n c)
  reduce :
      (n : ℕ) {c : HttpRetryConfig} → Built c → Built (Retry.with_low_latency_reduction_factor n c)

-- What the builders keep of the two factors of low latency.
record HasFactors (c : HttpRetryConfig) : Type 0 where
  multiplies : 1 ≤ c.low_latency_multiply_factor
  reduces : 1 ≤ c.low_latency_reduction_factor

Built-HasFactors : {c : HttpRetryConfig} → Built c → HasFactors c
unfolding Retry.with_media_attempts Retry.with_media_interval Retry.with_manifest_attempts
    Retry.with_manifest_interval Retry.with_low_latency_multiply_factor
    Retry.with_low_latency_reduction_factor
Built-HasFactors defaults = record { multiplies = omega arith; reduces = omega arith }
Built-HasFactors disables = record { multiplies = omega arith; reduces = omega arith }
Built-HasFactors (media_attempts n b) =
    let v = Built-HasFactors b in record { multiplies = v.multiplies; reduces = v.reduces }
Built-HasFactors (media_interval d b) =
    let v = Built-HasFactors b in record { multiplies = v.multiplies; reduces = v.reduces }
Built-HasFactors (manifest_attempts n b) =
    let v = Built-HasFactors b in record { multiplies = v.multiplies; reduces = v.reduces }
Built-HasFactors (manifest_interval d b) =
    let v = Built-HasFactors b in record { multiplies = v.multiplies; reduces = v.reduces }
Built-HasFactors (multiply n b) =
    let v = Built-HasFactors b in record { multiplies = omega arith; reduces = v.reduces }
Built-HasFactors (reduce n b) =
    let v = Built-HasFactors b in record { multiplies = v.multiplies; reduces = omega arith }

-- The policies for a kind of request, plain and for low latency.
pub record IsScaled (kind : HttpRequestKind) (c : HttpRetryConfig) : Type 0 where
  pub plain : HttpRetryPolicy
  pub low_latency : HttpRetryPolicy
  pub plain_is : policy kind false c ≡ some plain
  pub low_latency_is : policy kind true c ≡ some low_latency
  pub tries : 1 ≤ plain.max_attempts
  pub more : min plain.max_attempts u32_max ≤ low_latency.max_attempts
  pub fits : low_latency.max_attempts ≤ u32_max
  pub sooner : low_latency.interval ≤ plain.interval

-- Every configuration that can be built has a policy for every kind of request, in low latency
-- without a division by zero: at least one try, in low latency no fewer tries (up to the u32
-- limit) and no longer an interval.
pub policy-IsScaled : {c : HttpRetryConfig} → Built c → (kind : HttpRequestKind) → IsScaled kind c
unfolding policy scaled
policy-IsScaled {c = c} b kind =
    let v = Built-HasFactors b in
    let n = max (base_policy kind c).0 1 in
    let d = (base_policy kind c).1 in
    let nonzero : (c.low_latency_reduction_factor == 0) ≡ false = ground (arith, v.reduces) in
    let times : n * 1 ≤ n * c.low_latency_multiply_factor = mul-le-mul_left n v.multiplies in
    record {
      plain = record { max_attempts = n; interval = d };
      low_latency = record {
        max_attempts = min (n * c.low_latency_multiply_factor) u32_max;
        interval = d / c.low_latency_reduction_factor;
      };
      plain_is = refl;
      low_latency_is = rw nonzero;
      tries = omega arith;
      more = omega arith;
      fits = omega arith;
      sooner = div-le_self d c.low_latency_reduction_factor;
    }
