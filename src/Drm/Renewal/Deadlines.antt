-- ===== src/Drm/Renewal/Deadlines.antt =====
-- The deadlines of a session over any sequence of updates (src/drm/renewal/state.rs).
use dashplay_rs.Prelude.{ℕ, ◌≤◌, ◌≡◌, refl, ap, ◌∙◌, true, Option, none, some, arith}
use dashplay_rs.Bytes.{Bytes}
use dashplay_rs.Drm.Policy.{RenewalSchedule, schedule_from_key_control}
use dashplay_rs.Drm.Renewal.{
  RenewalState, earliest_instant, merge_schedule, merge_parsed, reached, update_from_key_control,
  is_expired, mark_renewal_attempt, mark_renewal_success, mark_renewal_failure,
}

-- The second state has come from the first by the session's updates.
pub data Later (latest : ℕ) (st : RenewalState) : RenewalState → Type 0 where
  same : Later latest st st
  merged :
      (s : RenewalSchedule) {t : RenewalState}
      → Later latest st t
      → Later latest st (merge_schedule s t)
  controlled :
      (key : Bytes) (applied_at : ℕ) {t : RenewalState}
      → Later latest st t
      → Later latest st (update_from_key_control latest key applied_at t)
  attempted :
      (now : ℕ) {t : RenewalState}
      → Later latest st t
      → Later latest st (mark_renewal_attempt now t)
  succeeded : {t : RenewalState} → Later latest st t → Later latest st (mark_renewal_success t)
  failed : {t : RenewalState} → Later latest st t → Later latest st (mark_renewal_failure t)

merge-is_expired :
    (s : RenewalSchedule) (t : RenewalState) (now : ℕ)
    → is_expired t now ≡ true
    → is_expired (merge_schedule s t) now ≡ true
unfolding merge_schedule is_expired earliest_instant reached
merge-is_expired s t now h = ground arith

parsed-is_expired :
    (o : Option RenewalSchedule) (t : RenewalState) (now : ℕ)
    → is_expired t now ≡ true
    → is_expired (merge_parsed o t) now ≡ true
unfolding merge_parsed
parsed-is_expired none t now h = h
parsed-is_expired (some s) t now h = merge-is_expired s t now h

control-is_expired :
    (latest : ℕ) (key : Bytes) (applied_at : ℕ) (t : RenewalState) (now : ℕ)
    → is_expired t now ≡ true
    → is_expired (update_from_key_control latest key applied_at t) now ≡ true
unfolding update_from_key_control
control-is_expired latest key applied_at t now h =
    parsed-is_expired (schedule_from_key_control latest key applied_at) t now h

same_deadline :
    (t u : RenewalState) (now : ℕ)
    → u.expire_at ≡ t.expire_at
    → is_expired t now ≡ true
    → is_expired u now ≡ true
unfolding is_expired
same_deadline t u now e h = ap (λ o. reached o now) e ∙ h

-- A session that has expired stays expired at every later instant, whatever schedules, KEY_CONTROL
-- keys and renewal attempts, successful or not, come in: no update moves its deadline.
pub is_expired-Later :
    {latest : ℕ} {st t : RenewalState}
    → Later latest st t
    → (now later : ℕ) → now ≤ later
    → is_expired st now ≡ true
    → is_expired t later ≡ true
is_expired-Later {st = st} same now later le h = unfold is_expired reached in ground arith
is_expired-Later (merged s {t = t} p) now later le h =
    merge-is_expired s t later (is_expired-Later p now later le h)
is_expired-Later {latest = latest} (controlled key at {t = t} p) now later le h =
    control-is_expired latest key at t later (is_expired-Later p now later le h)
is_expired-Later (attempted at {t = t} p) now later le h =
    same_deadline t (mark_renewal_attempt at t) later (unfold mark_renewal_attempt in refl)
      (is_expired-Later p now later le h)
is_expired-Later (succeeded {t = t} p) now later le h =
    same_deadline t (mark_renewal_success t) later (unfold mark_renewal_success in refl)
      (is_expired-Later p now later le h)
is_expired-Later (failed {t = t} p) now later le h =
    same_deadline t (mark_renewal_failure t) later (unfold mark_renewal_failure in refl)
      (is_expired-Later p now later le h)
