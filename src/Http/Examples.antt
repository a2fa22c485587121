-- ===== src/Http/Examples.antt =====
-- Retries at concrete inputs.
use dashplay_rs.Prelude.{ℕ, zero, suc, ◌≡◌, refl, false, some, Result, ok, err, arith}
use dashplay_rs.Http.Retry
use dashplay_rs.Http.Retry.{
  HttpRequestKind, HttpRetryPolicy, Cancels, Run, with_retry, default_config,
}
use dashplay_rs.Http.Retry.Policy.{IsScaled, policy-IsScaled, defaults, multiply}
use dashplay_rs.Http.Retry.Loop.{IsEnded, with_retry-IsEnded}

abbrev three_tries : HttpRetryPolicy
three_tries = record { max_attempts = 3; interval = 1_000 }

abbrev never : Cancels
never = record { before = λ i. false; during = λ i. false; after = λ i. false; asleep = λ i. false }

-- A server that is busy once; the error is the status.
abbrev busy_once : ℕ → Result ℕ ℕ
busy_once zero = err 503
busy_once (suc i) = ok i

busy_once_is_retried :
    with_retry Retry.is_transient_status 0 never busy_once 3 three_tries
    ≡ some (record { result = ok 0; tries = 2 })
unfolding with_retry Retry.retry_from Retry.turn Retry.after_answer Retry.is_transient_status
busy_once_is_retried = refl

with_retry-IsEnded_example :
    (run : Run ℕ ℕ) × (with_retry Retry.is_transient_status 0 never busy_once 3 three_tries
      ≡ some run)
    × IsEnded Retry.is_transient_status 0 never busy_once three_tries run
with_retry-IsEnded_example =
    with_retry-IsEnded Retry.is_transient_status 0 never busy_once three_tries 3 (omega arith)

policy-IsScaled_example :
    IsScaled HttpRequestKind.media_segment (Retry.with_low_latency_multiply_factor 7 default_config)
policy-IsScaled_example = policy-IsScaled (multiply 7 defaults) HttpRequestKind.media_segment
