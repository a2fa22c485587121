-- ===== src/Http/Retry.antt =====
-- Retries of a request (src/http/retry.rs). A u32 holds at most `u32_max`; an interval is a number of
-- nanoseconds. The request is a parameter: what its tries answer, and where a cancellation is seen.
pub mod Policy
pub mod Loop
use dashplay_rs.Prelude.{
  ℕ, zero, suc, ◌+◌, ◌-◌, ◌*◌, ◌/◌, ◌^◌, min, max, Bool, true, false, not, ◌&&◌, ◌||◌, Option, none,
  some, ltb, leb, ◌==◌, if◌then◌else◌, Result, ok, err,
}

abbrev pub u32_max : ℕ
u32_max = 2 ^ 32 - 1

abbrev pub from_millis : ℕ → ℕ
from_millis ms = ms * 1_000_000

pub data HttpRequestKind : Type 0 where
  manifest : HttpRequestKind
  xlink : HttpRequestKind
  media_segment : HttpRequestKind
  initialization_segment : HttpRequestKind
  index_segment : HttpRequestKind
  other : HttpRequestKind

pub record HttpRetryPolicy : Type 0 where
  pub max_attempts : ℕ
  pub interval : ℕ

pub record HttpRetryConfig : Type 0 where
  pub manifest_attempts : ℕ
  pub manifest_interval : ℕ
  pub xlink_attempts : ℕ
  pub xlink_interval : ℕ
  pub media_attempts : ℕ
  pub media_interval : ℕ
  pub init_attempts : ℕ
  pub init_interval : ℕ
  pub index_attempts : ℕ
  pub index_interval : ℕ
  pub other_attempts : ℕ
  pub other_interval : ℕ
  pub low_latency_multiply_factor : ℕ
  pub low_latency_reduction_factor : ℕ

abbrev pub default_config : HttpRetryConfig
default_config = record {
  manifest_attempts = 3;
  manifest_interval = from_millis 500;
  xlink_attempts = 1;
  xlink_interval = from_millis 500;
  media_attempts = 3;
  media_interval = from_millis 1000;
  init_attempts = 3;
  init_interval = from_millis 1000;
  index_attempts = 3;
  index_interval = from_millis 1000;
  other_attempts = 3;
  other_interval = from_millis 1000;
  low_latency_multiply_factor = 5;
  low_latency_reduction_factor = 10;
}

abbrev pub disabled : HttpRetryConfig
disabled = record {
  manifest_attempts = 1;
  manifest_interval = 0;
  xlink_attempts = 1;
  xlink_interval = 0;
  media_attempts = 1;
  media_interval = 0;
  init_attempts = 1;
  init_interval = 0;
  index_attempts = 1;
  index_interval = 0;
  other_attempts = 1;
  other_interval = 0;
  low_latency_multiply_factor = 1;
  low_latency_reduction_factor = 1;
}

unfoldable pub with_media_attempts : ℕ → HttpRetryConfig → HttpRetryConfig
with_media_attempts attempts c = record c { media_attempts = max attempts 1 }

unfoldable pub with_media_interval : ℕ → HttpRetryConfig → HttpRetryConfig
with_media_interval interval c = record c { media_interval = interval }

unfoldable pub with_manifest_attempts : ℕ → HttpRetryConfig → HttpRetryConfig
with_manifest_attempts attempts c = record c { manifest_attempts = max attempts 1 }

unfoldable pub with_manifest_interval : ℕ → HttpRetryConfig → HttpRetryConfig
with_manifest_interval interval c = record c { manifest_interval = interval }

unfoldable pub with_low_latency_multiply_factor : ℕ → HttpRetryConfig → HttpRetryConfig
with_low_latency_multiply_factor factor c = record c { low_latency_multiply_factor = max factor 1 }

unfoldable pub with_low_latency_reduction_factor : ℕ → HttpRetryConfig → HttpRetryConfig
with_low_latency_reduction_factor factor c = record c {
  low_latency_reduction_factor = max factor 1;
}

unfoldable pub base_policy : HttpRequestKind → HttpRetryConfig → ℕ × ℕ
base_policy HttpRequestKind.manifest c = (c.manifest_attempts, c.manifest_interval)
base_policy HttpRequestKind.xlink c = (c.xlink_attempts, c.xlink_interval)
base_policy HttpRequestKind.media_segment c = (c.media_attempts, c.media_interval)
base_policy HttpRequestKind.initialization_segment c = (c.init_attempts, c.init_interval)
base_policy HttpRequestKind.index_segment c = (c.index_attempts, c.index_interval)
base_policy HttpRequestKind.other c = (c.other_attempts, c.other_interval)

unfoldable pub scaled : ℕ → ℕ → Bool → HttpRetryConfig → Option HttpRetryPolicy
scaled attempts interval low_latency c =
    if not low_latency
    then some (record { max_attempts = attempts; interval = interval })
    else if c.low_latency_reduction_factor == 0
    then none
    else some (record {
      max_attempts = min (attempts * c.low_latency_multiply_factor) u32_max;
      interval = interval / c.low_latency_reduction_factor;
    })

-- `none` is the panic of a division of the interval by zero.
unfoldable pub policy : HttpRequestKind → Bool → HttpRetryConfig → Option HttpRetryPolicy
policy kind low_latency c =
    scaled (max (base_policy kind c).0 1) (base_policy kind c).1 low_latency c

unfoldable pub is_transient_status : ℕ → Bool
is_transient_status status =
    (status == 408 || status == 425 || status == 429) || (leb 500 status && ltb status 600)

-- Where the guard is seen cancelled: before a try, during it (the try is dropped), after it, and in
-- the sleep behind it. Without a guard nowhere.
pub record Cancels : Type 0 where
  pub before : ℕ → Bool
  pub during : ℕ → Bool
  pub after : ℕ → Bool
  pub asleep : ℕ → Bool

-- What the call returns, and how many tries it has begun.
pub record Run (E T : Type 0) : Type 0 where
  pub result : Result E T
  pub tries : ℕ

module _ {E T : Type 0} (is_transient : E → Bool) (cancelled : E) (cancels : Cancels)
    (answer : ℕ → Result E T) where
  -- One turn of the loop: what it returns, if it returns.
  unfoldable pub after_answer : HttpRetryPolicy → ℕ → Result E T → Option (Run E T)
  after_answer p idx (ok v) = some (record { result = ok v; tries = idx + 1 })
  after_answer p idx (err e) =
      if cancels.after idx
      then some (record { result = err cancelled; tries = idx + 1 })
      else if not (is_transient e && ltb (idx + 1) (max p.max_attempts 1))
      then some (record { result = err e; tries = idx + 1 })
      else if not (p.interval == 0) && cancels.asleep idx
      then some (record { result = err cancelled; tries = idx + 1 })
      else none

  unfoldable pub turn : HttpRetryPolicy → ℕ → Option (Run E T)
  turn p idx =
      if cancels.before idx
      then some (record { result = err cancelled; tries = idx })
      else if cancels.during idx
      then some (record { result = err cancelled; tries = idx + 1 })
      else after_answer p idx (answer idx)

  -- The loop from a try on; `none` is that the fuel ran out.
  unfoldable pub retry_from : ℕ → HttpRetryPolicy → ℕ → Option (Run E T)
  retry_from zero p idx = none
  retry_from (suc fuel) p idx = elim (turn p idx) [
    | some run ↦ some run
    | none ↦ retry_from fuel p (idx + 1)
  ]

  unfoldable pub with_retry : ℕ → HttpRetryPolicy → Option (Run E T)
  with_retry fuel p = retry_from fuel p 0
