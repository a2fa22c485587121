-- ===== src/Drm/Renewal.antt =====
-- Session-local renewal: deadlines, retry backoff and poll timing (src/drm/renewal/state.rs).
pub mod Deadlines
pub mod Due
pub mod KeyControl
use dashplay_rs.Prelude.{
  ℕ, ◌+◌, ◌-◌, ◌*◌, ◌^◌, min, Bool, true, false, not, ◌&&◌, ◌||◌, Option, none, some, ltb, leb,
  ◌==◌, if◌then◌else◌, is_some, is_none, or_option,
}
use dashplay_rs.Bytes.{Bytes}
use dashplay_rs.Time.{saturating_mul}
use dashplay_rs.Drm.Policy.{RenewalSchedule, schedule_from_key_control, second}

-- `DEFAULT_RETRY_INTERVAL`
abbrev pub default_retry_interval : ℕ
default_retry_interval = 30 * second

-- `MAX_BACKOFF_SHIFT`
abbrev pub max_backoff_shift : ℕ
max_backoff_shift = 6

pub record RenewalState : Type 0 where
  pub renew_after : Option ℕ
  pub expire_at : Option ℕ
  pub can_renew : Bool
  pub renewal_retry_interval : ℕ
  pub renewal_server_url : Option Bytes
  pub last_attempt : Option ℕ
  pub failed_attempts : ℕ

unfoldable pub earliest_instant : Option ℕ → Option ℕ → Option ℕ
earliest_instant (some x) (some y) = some (min x y)
earliest_instant none (some y) = some y
earliest_instant (some x) none = some x
earliest_instant none none = none

unfoldable pub merge_schedule : RenewalSchedule → RenewalState → RenewalState
merge_schedule schedule st = record st {
  can_renew = schedule.can_renew || st.can_renew;
  renewal_server_url = or_option schedule.renewal_server_url st.renewal_server_url;
  renewal_retry_interval =
      if ltb 0 schedule.renewal_retry_interval
      then schedule.renewal_retry_interval
      else st.renewal_retry_interval;
  renew_after = earliest_instant st.renew_after schedule.renew_after;
  expire_at = earliest_instant st.expire_at schedule.expire_at;
}

unfoldable pub merge_parsed : Option RenewalSchedule → RenewalState → RenewalState
merge_parsed none st = st
merge_parsed (some schedule) st = merge_schedule schedule st

unfoldable pub update_from_key_control : ℕ → Bytes → ℕ → RenewalState → RenewalState
update_from_key_control latest key applied_at st =
    merge_parsed (schedule_from_key_control latest key applied_at) st

unfoldable pub retry_interval_with_backoff : RenewalState → ℕ
retry_interval_with_backoff st =
    let base =
      if st.renewal_retry_interval == 0
      then default_retry_interval
      else st.renewal_retry_interval in
    saturating_mul base (2 ^ min st.failed_attempts max_backoff_shift)

-- The backoff since the last attempt is over; `Instant::duration_since` stops at 0.
unfoldable pub backoff_over : Option ℕ → ℕ → ℕ → Bool
backoff_over none now backoff = true
backoff_over (some last) now backoff = not (ltb (now - last) backoff)

unfoldable pub due : Option ℕ → Option ℕ → ℕ → ℕ → Bool
due none last now backoff = false
due (some renew_after) last now backoff =
    if ltb now renew_after then false else backoff_over last now backoff

unfoldable pub needs_renewal : RenewalState → ℕ → Bool
needs_renewal st now =
    if not st.can_renew && is_none st.renew_after
    then false
    else due st.renew_after st.last_attempt now (retry_interval_with_backoff st)

unfoldable pub reached : Option ℕ → ℕ → Bool
reached none now = false
reached (some deadline) now = leb deadline now

unfoldable pub is_expired : RenewalState → ℕ → Bool
is_expired st now = reached st.expire_at now

unfoldable pub mark_renewal_attempt : ℕ → RenewalState → RenewalState
mark_renewal_attempt now st = record st { last_attempt = some now }

unfoldable pub mark_renewal_success : RenewalState → RenewalState
mark_renewal_success st = record st { failed_attempts = 0 }

-- `saturating_add(1)` on a `u32`
unfoldable pub mark_renewal_failure : RenewalState → RenewalState
mark_renewal_failure st = record st { failed_attempts = min (st.failed_attempts + 1) (2 ^ 32 - 1) }

unfoldable pub renewal_can_renew : RenewalState → Bool
renewal_can_renew st = st.can_renew || is_some st.renew_after
