-- ===== src/Drm/Policy.antt =====
-- Renewal timing from a license response (src/drm/renewal/policy.rs). An `Instant` counts nanoseconds
-- from the earliest that the platform represents, and `latest` is the last one.
use dashplay_rs.Prelude.{
  ℕ, ◌+◌, ◌-◌, ◌*◌, ◌/◌, min, Bool, false, not, ◌||◌, Option, none, some, [], ◌∷◌, ltb, leb, ◌==◌,
  if◌then◌else◌, length, take, unwrap_or,
}
use dashplay_rs.Bytes.{Bytes, be, eq_bytes, slice}

abbrev pub second : ℕ
second = 1_000_000_000

-- `RENEWAL_LEAD_TIME`
abbrev pub renewal_lead_time : ℕ
renewal_lead_time = 60 * second

pub record RenewalSchedule : Type 0 where
  pub renew_after : Option ℕ
  pub expire_at : Option ℕ
  pub can_renew : Bool
  pub renewal_retry_interval : ℕ
  pub renewal_server_url : Option Bytes

abbrev pub default_schedule : RenewalSchedule
default_schedule = record {
  renew_after = none;
  expire_at = none;
  can_renew = false;
  renewal_retry_interval = 0;
  renewal_server_url = none;
}

-- `Instant::checked_add`, `Instant::checked_sub`
abbrev pub checked_add : ℕ → ℕ → ℕ → Option ℕ
checked_add latest at d = if leb (at + d) latest then some (at + d) else none

abbrev pub checked_sub : ℕ → ℕ → Option ℕ
checked_sub at d = if leb d at then some (at - d) else none

abbrev pub kctl : Bytes
kctl = b'k' ∷ b'c' ∷ b't' ∷ b'l' ∷ []

unfoldable pub parse_key_control_ttl : Bytes → Option ℕ
parse_key_control_ttl block =
    if ltb (length block) 12 || not (eq_bytes (take 4 block) kctl)
    then none
    else some (be (slice block 8 4))

-- The schedule of a time to live in seconds.
unfoldable pub schedule_of_ttl : ℕ → ℕ → ℕ → RenewalSchedule
schedule_of_ttl latest applied_at ttl =
    let ttl_duration = ttl * second in
    let expire_at = unwrap_or (checked_add latest applied_at ttl_duration) applied_at in
    let lead = min renewal_lead_time (ttl_duration / 10) in
    let renew_after = unwrap_or (checked_sub expire_at lead) expire_at in
    record default_schedule { renew_after = some renew_after; expire_at = some expire_at }

unfoldable pub with_ttl : ℕ → ℕ → Option ℕ → Option RenewalSchedule
with_ttl latest applied_at none = none
with_ttl latest applied_at (some ttl) =
    if ttl == 0 then none else some (schedule_of_ttl latest applied_at ttl)

unfoldable pub schedule_from_key_control : ℕ → Bytes → ℕ → Option RenewalSchedule
schedule_from_key_control latest key applied_at =
    with_ttl latest applied_at (parse_key_control_ttl key)
