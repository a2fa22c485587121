-- ===== src/Drm/License/Expiry.antt =====
-- A license session past its deadline (src/drm/widevine.rs, src/drm/coordinator.rs).
use dashplay_rs.Prelude.{
  ℕ, ◌≤◌, ◌≡◌, refl, sym, Bool, true, Option, none, some, List, [], ◌∷◌, if_rule, ok, err, ◌||◌,
  is_none, subst,
}
use dashplay_rs.Bytes.{Bytes}
use dashplay_rs.Drm.Policy.{RenewalSchedule}
use dashplay_rs.Drm.Renewal.{RenewalState, merge_parsed, is_expired}
use dashplay_rs.Drm.Renewal.Deadlines.{
  Later, same, merged, controlled, attempted, succeeded, failed, is_expired-Later,
}
use dashplay_rs.Drm.License
use dashplay_rs.Drm.License.{License, Key, KeyType, KeyMap, LicenseError, Answer, decrypt}

module _ (latest : ℕ) (st : RenewalState) where
  merge_parsed-Later :
      (o : Option RenewalSchedule) {t : RenewalState}
      → Later latest st t
      → Later latest st (merge_parsed o t)
  unfolding merge_parsed
  merge_parsed-Later none p = p
  merge_parsed-Later (some s) p = merged s p

  control_with-Later :
      (applied_at : ℕ) (typ : KeyType) (kid key : Bytes) {t : RenewalState}
      → Later latest st t
      → Later latest st
          (License.control_with latest applied_at (record { typ = typ; kid = kid; key = key }) t)
  unfolding License.control_with
  control_with-Later at KeyType.key_control kid key p = controlled key at p
  control_with-Later at KeyType.signing kid key p = p
  control_with-Later at KeyType.content kid key p = p
  control_with-Later at KeyType.operator_session kid key p = p
  control_with-Later at KeyType.entitlement kid key p = p
  control_with-Later at KeyType.oem_content kid key p = p

  control_keys-Later :
      (applied_at : ℕ) (ks : List Key) {t : RenewalState}
      → Later latest st t
      → Later latest st (License.control_keys latest applied_at ks t)
  unfolding License.control_keys
  control_keys-Later at [] p = p
  control_keys-Later at (k ∷ ks) p =
      control_keys-Later at ks (control_with-Later at k.typ k.kid k.key p)

  module _ {P : Type 0} (rebuild : KeyMap → Option P) where
    rebuilt-renewal :
        (o : Option P) (lic : License P) → (License.rebuilt rebuild o lic).1.renewal ≡ lic.renewal
    unfolding License.rebuilt
    rebuilt-renewal none lic = refl
    rebuilt-renewal (some p) lic = refl

    load_keys-renewal :
        (x : KeyMap × Bool) (lic : License P)
        → (License.load_keys rebuild x lic).1.renewal ≡ lic.renewal
    unfolding License.load_keys
    load_keys-renewal (keys, added) lic =
        if_rule (λ (r : License.Applied rebuild). r.1.renewal ≡ lic.renewal) (License.is_empty keys)
          refl
          (if_rule (λ (r : License.Applied rebuild). r.1.renewal ≡ lic.renewal)
            (added || is_none lic.processor)
            (rebuilt-renewal (rebuild keys) (record lic { content_keys = keys })) refl)

    integrate_if-Later :
        (keys : Option (List Key)) (applied_at : ℕ) (lic : License P)
        → Later latest st lic.renewal
        → Later latest st (License.integrate_if rebuild latest keys applied_at lic).1.renewal
    unfolding License.integrate_if License.integrate_key_set
    integrate_if-Later none at lic p = p
    integrate_if-Later (some ks) at lic p =
        subst (Later latest st) (sym (load_keys-renewal _ _)) (control_keys-Later at ks p)

    apply_license-Later :
        (schedule : Option RenewalSchedule) (keys : Option (List Key)) (applied_at : ℕ)
        (lic : License P)
        → Later latest st lic.renewal
        → Later latest st
            (License.apply_license rebuild latest schedule keys applied_at lic).1.renewal
    unfolding License.apply_license
    apply_license-Later schedule keys at lic p =
        integrate_if-Later keys at (record lic { renewal = merge_parsed schedule lic.renewal })
          (merge_parsed-Later schedule p)

    failed-Later :
        (now : ℕ) (e : License.PollError) (lic : License P)
        → Later latest st lic.renewal
        → Later latest st (License.failed rebuild now e lic).1.renewal
    unfolding License.failed
    failed-Later now e lic p =
        if_rule (λ (r : License.Polled rebuild). Later latest st r.1.renewal) (is_expired _ now)
          (failed p) (failed p)

    settle-Later :
        (now : ℕ) (a : License.Applied rebuild)
        → Later latest st a.1.renewal
        → Later latest st (License.settle rebuild now a).1.renewal
    unfolding License.settle
    settle-Later now (ok _, lic) p = succeeded p
    settle-Later now (err e, lic) p = failed-Later now (License.PollError.license e) lic p

    attempt-Later :
        (now : ℕ) (answer : Answer) (lic : License P)
        → Later latest st lic.renewal
        → Later latest st (License.attempt rebuild latest now answer lic).1.renewal
    unfolding License.attempt
    attempt-Later now Answer.no_url lic p = p
    attempt-Later now Answer.no_challenge lic p = failed (attempted now p)
    attempt-Later now Answer.unreachable lic p =
        failed-Later now License.PollError.license_http _ (attempted now p)
    attempt-Later now (Answer.answers schedule keys at) lic p =
        settle-Later now _ (apply_license-Later schedule keys at _ (attempted now p))

    poll_renewal-Later :
        (now : ℕ) (answer : Answer) (lic : License P)
        → Later latest st lic.renewal
        → Later latest st (License.poll_renewal rebuild latest now answer lic).1.renewal
    unfolding License.poll_renewal
    poll_renewal-Later now answer lic p =
        if_rule (λ (r : License.Polled rebuild). Later latest st r.1.renewal) _ p
          (attempt-Later now answer lic p)

-- The second session has come from the first by licenses and turns of the poll.
pub data Goes {P : Type 0} (rebuild : KeyMap → Option P) (latest : ℕ) (lic : License P)
    : License P → Type 0 where
  starts : Goes rebuild latest lic lic
  applies :
      (schedule : Option RenewalSchedule) (keys : Option (List Key)) (applied_at : ℕ)
      {now : License P}
      → Goes rebuild latest lic now
      → Goes rebuild latest lic
          (License.apply_license rebuild latest schedule keys applied_at now).1
  polls :
      (at : ℕ) (answer : Answer) {now : License P}
      → Goes rebuild latest lic now
      → Goes rebuild latest lic (License.poll_renewal rebuild latest at answer now).1

Goes-Later :
    {P : Type 0} (rebuild : KeyMap → Option P) (latest : ℕ) {lic now : License P}
    → Goes rebuild latest lic now
    → Later latest lic.renewal now.renewal
Goes-Later rebuild latest starts = same
Goes-Later rebuild latest {lic = lic} (applies s ks at p) =
    apply_license-Later latest lic.renewal rebuild s ks at _ (Goes-Later rebuild latest p)
Goes-Later rebuild latest {lic = lic} (polls at a p) =
    poll_renewal-Later latest lic.renewal rebuild at a _ (Goes-Later rebuild latest p)

module _ {P : Type 0} (decrypt_with : P → Bytes → Option Bytes → Option Bytes) where
  expired-decrypt :
      (bytes : Bytes) (init : Option Bytes) (now : ℕ) (lic : License P)
      → is_expired lic.renewal now ≡ true
      → decrypt decrypt_with bytes init now lic ≡ err LicenseError.renewal_expired
  unfolding decrypt
  expired-decrypt bytes init now lic h = rw h

-- Once a session has passed its deadline, it decrypts nothing ever again, whatever licenses are
-- applied and whatever renewals succeed in between: no answer of the server moves the deadline.
pub decrypt-expired :
    {P : Type 0} (rebuild : KeyMap → Option P)
    (decrypt_with : P → Bytes → Option Bytes → Option Bytes) (latest : ℕ) {lic then' : License P}
    → Goes rebuild latest lic then'
    → (now later : ℕ) → now ≤ later
    → is_expired lic.renewal now ≡ true
    → (bytes : Bytes) (init : Option Bytes)
    → decrypt decrypt_with bytes init later then' ≡ err LicenseError.renewal_expired
decrypt-expired rebuild decrypt_with latest goes now later le h bytes init =
    expired-decrypt decrypt_with bytes init later _
      (is_expired-Later (Goes-Later rebuild latest goes) now later le h)
