-- ===== src/Time.antt =====
-- `std::time::Duration` and `Instant` as numbers of nanoseconds. A sum by `+` on Durations, which
-- panics past `Duration::MAX` (some 584 billion years), is a plain sum.
use dashplay_rs.Prelude.{ℕ, ◌+◌, ◌-◌, ◌*◌, ◌^◌, min}

-- `Duration::MAX`: 2^64 - 1 seconds and 999_999_999 nanoseconds.
abbrev pub duration_max : ℕ
duration_max = 2 ^ 64 * 1_000_000_000 - 1

-- `Duration::saturating_add`, `Duration::saturating_mul`
abbrev pub saturating_add : ℕ → ℕ → ℕ
saturating_add a b = min (a + b) duration_max

abbrev pub saturating_mul : ℕ → ℕ → ℕ
saturating_mul a b = min (a * b) duration_max
