-- ===== src/Drm/Renewal/KeyControl.antt =====
-- The deadlines that a KEY_CONTROL key sets (src/drm/renewal).
use dashplay_rs.Prelude.{
  ℕ, ◌+◌, ◌-◌, ◌*◌, ◌/◌, ◌^◌, min, ◌≤◌, ◌<◌, ◌≡◌, ap, ◌∙◌, true, false, none, some, ◌++◌, arith,
  leb, ◌==◌, le→leb, le→ltb, length,
}
use dashplay_rs.Bytes.{Bytes, be_bytes4, be-be_bytes4}
use dashplay_rs.Drm.Policy.{
  schedule_from_key_control, with_ttl, parse_key_control_ttl, schedule_of_ttl, second,
  renewal_lead_time, kctl,
}
use dashplay_rs.Drm.Renewal.{
  RenewalState, earliest_instant, merge_schedule, merge_parsed, update_from_key_control, is_expired,
  needs_renewal, due, backoff_over, reached,
}

-- A block: the magic, the version, the time to live in seconds, and the rest.
abbrev pub block : ℕ → ℕ → Bytes → Bytes
block version ttl rest = kctl ++ (be_bytes4 version ++ (be_bytes4 ttl ++ rest))

parse-block :
    (version ttl : ℕ) (rest : Bytes)
    → ttl < 2 ^ 32
    → parse_key_control_ttl (block version ttl rest) ≡ some ttl
unfolding parse_key_control_ttl
parse-block version ttl rest h =
    rw (le→ltb (length (block version ttl rest)) 12 (omega arith), be-be_bytes4 ttl h)

schedule-block :
    (latest version ttl : ℕ) (rest : Bytes) (applied_at : ℕ)
    → 0 < ttl
    → ttl < 2 ^ 32
    → schedule_from_key_control latest (block version ttl rest) applied_at
      ≡ some (schedule_of_ttl latest applied_at ttl)
unfolding schedule_from_key_control with_ttl
schedule-block latest version ttl rest applied_at pos h =
    let nonzero : (ttl == 0) ≡ false = ground arith in
    ap (with_ttl latest applied_at) (parse-block version ttl rest h) ∙ rw nonzero

-- A KEY_CONTROL block with a time to live, applied to a session without deadlines or attempts: the
-- session expires exactly when the time to live is over, and a renewal is due from the instant that
-- precedes it by a tenth of the time to live, at most by a minute.
pub update_from_key_control-window :
    (latest version ttl : ℕ) (rest : Bytes) (applied_at : ℕ) (st : RenewalState) (now : ℕ)
    → 0 < ttl
    → ttl < 2 ^ 32
    → applied_at + ttl * second ≤ latest
    → st.renew_after ≡ none
    → st.expire_at ≡ none
    → st.last_attempt ≡ none
    → (is_expired (update_from_key_control latest (block version ttl rest) applied_at st) now
        ≡ leb (applied_at + ttl * second) now)
      × (needs_renewal (update_from_key_control latest (block version ttl rest) applied_at st) now
          ≡ leb (applied_at + ttl * second - min (60 * second) (ttl * second / 10)) now)
unfolding update_from_key_control schedule_of_ttl merge_schedule merge_parsed earliest_instant
    is_expired reached needs_renewal due backoff_over
update_from_key_control-window latest version ttl rest applied_at st now pos h fits r e l =
    let value = schedule-block latest version ttl rest applied_at pos h in
    let added = le→leb (applied_at + ttl * second) latest fits in
    let taken : leb (min renewal_lead_time (ttl * second / 10)) (applied_at + ttl * second) ≡ true =
      le→leb (min renewal_lead_time (ttl * second / 10)) (applied_at + ttl * second)
        (omega arith) in
    (rw (value, added, e), rw (value, added, taken, r, l) (ground arith))
