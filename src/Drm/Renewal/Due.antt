-- ===== src/Drm/Renewal/Due.antt =====
-- When a renewal is due (src/drm/renewal).
use dashplay_rs.Prelude.{
  ℕ, zero, suc, ◌+◌, ◌-◌, ◌*◌, ◌^◌, min, ◌≤◌, ◌≡◌, ◌↔◌, refl, ◌∙◌, Bool, true, false, Option, none,
  some, arith, ◌==◌, if◌then◌else◌, not, ◌&&◌, is_none, sym, ap,
}
use dashplay_rs.Time.{saturating_mul, duration_max}
use dashplay_rs.Drm.Renewal.{
  RenewalState, needs_renewal, due, backoff_over, retry_interval_with_backoff, mark_renewal_success,
  mark_renewal_failure, default_retry_interval,
}

-- The state says that a renewal is due: the instant for it has come, and the backoff since the last
-- attempt is over.
pub record IsDue (st : RenewalState) (now : ℕ) : Type 0 where
  pub from : ℕ
  pub set : st.renew_after ≡ some from
  pub come : from ≤ now
  pub waited :
      (last : ℕ) → st.last_attempt ≡ some last → retry_interval_with_backoff st ≤ now - last

backoff_over_lem :
    (l : Option ℕ) (now k : ℕ)
    → (backoff_over l now k ≡ true) ↔ ((last : ℕ) → l ≡ some last → k ≤ now - last)
unfolding backoff_over
backoff_over_lem none now k = (λ h last e. cc, λ f. refl)
backoff_over_lem (some x) now k = (λ h last e. ground arith, λ f. ground (arith, f x refl))

due_come :
    (at : ℕ) (l : Option ℕ) (now k : ℕ)
    → due (some at) l now k ≡ true
    → (at ≤ now) × (backoff_over l now k ≡ true)
unfolding due
due_come at l now k h = ground arith

due_now :
    (at : ℕ) (l : Option ℕ) (now k : ℕ)
    → at ≤ now
    → backoff_over l now k ≡ true
    → due (some at) l now k ≡ true
unfolding due
due_now at l now k come h = ground arith

due-none : (l : Option ℕ) (now k : ℕ) → due none l now k ≡ false
unfolding due
due-none l now k = refl

guarded :
    (renewable : Bool) (o l : Option ℕ) (now k : ℕ)
    → (if not renewable && is_none o then false else due o l now k) ≡ due o l now k
guarded true o l now k = refl
guarded false none l now k = sym (due-none l now k)
guarded false (some at) l now k = refl

needs_renewal-due :
    (st : RenewalState) (now : ℕ)
    → needs_renewal st now ≡ due st.renew_after st.last_attempt now (retry_interval_with_backoff st)
unfolding needs_renewal
needs_renewal-due st now =
    guarded st.can_renew st.renew_after st.last_attempt now (retry_interval_with_backoff st)

set_and_come :
    (o l : Option ℕ) (now k : ℕ)
    → due o l now k ≡ true
    → (from : ℕ) × (o ≡ some from) × (from ≤ now) × (backoff_over l now k ≡ true)
set_and_come none l now k h = cc (due-none l now k)
set_and_come (some at) l now k h =
    let (come, over) = due_come at l now k h in (at, refl, come, over)

-- A renewal is due exactly when the instant for it has come and the backoff since the last attempt
-- is over; whether the license says that it can be renewed makes no difference.
pub needs_renewal-IsDue :
    (st : RenewalState) (now : ℕ) → (needs_renewal st now ≡ true) ↔ IsDue st now
needs_renewal-IsDue st now =
    let backoff = retry_interval_with_backoff st in
    (
      λ h.
          let (at, e, come, over) =
            set_and_come st.renew_after st.last_attempt now backoff
              (sym (needs_renewal-due st now) ∙ h) in
          record {
            from = at;
            set = e;
            come = come;
            waited = (backoff_over_lem st.last_attempt now backoff).0 over;
          },
      λ d.
          needs_renewal-due st now
          ∙ ap (λ o. due o st.last_attempt now backoff) d.set
          ∙ due_now d.from st.last_attempt now backoff d.come
              ((backoff_over_lem st.last_attempt now backoff).1 d.waited),
    )

-- The interval that the backoff starts from.
abbrev pub base_interval : RenewalState → ℕ
base_interval st =
    if st.renewal_retry_interval == 0 then default_retry_interval else st.renewal_retry_interval

doubled :
    (b n : ℕ)
    → min (b * 2 ^ min (min (n + 1) (2 ^ 32 - 1)) 6) duration_max
      ≡ min (2 * min (b * 2 ^ min n 6) duration_max) (min (b * 64) duration_max)
doubled b zero = omega arith
doubled b (suc zero) = omega arith
doubled b (suc (suc zero)) = omega arith
doubled b (suc (suc (suc zero))) = omega arith
doubled b (suc (suc (suc (suc zero)))) = omega arith
doubled b (suc (suc (suc (suc (suc zero))))) = omega arith
doubled b (suc (suc (suc (suc (suc (suc n)))))) =
    let capped : min (min ((suc (suc (suc (suc (suc (suc n)))))) + 1) (2 ^ 32 - 1)) 6 ≡ 6 =
      omega arith in
    let capped' : min (suc (suc (suc (suc (suc (suc n)))))) 6 ≡ 6 = omega arith in
    rw (capped, capped') (omega arith)

-- Each failure doubles the wait before the next attempt, up to 64 times the base interval and
-- `Duration::MAX`; a success resets it to the base interval.
pub retry_interval_with_backoff-doubles :
    (st : RenewalState)
    → base_interval st ≤ duration_max
    → (retry_interval_with_backoff (mark_renewal_failure st)
        ≡ min (2 * retry_interval_with_backoff st) (saturating_mul (base_interval st) 64))
      × (retry_interval_with_backoff (mark_renewal_success st) ≡ base_interval st)
unfolding retry_interval_with_backoff mark_renewal_failure mark_renewal_success
retry_interval_with_backoff-doubles st h =
    (doubled (base_interval st) st.failed_attempts, omega arith)
