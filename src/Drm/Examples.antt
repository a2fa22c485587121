-- ===== src/Drm/Examples.antt =====
-- License sessions at concrete inputs: the decryptor of a set of keys is the set itself.
use dashplay_rs.Prelude.{
  ◌+◌, ◌-◌, ◌*◌, ◌/◌, ◌^◌, min, ◌≡◌, ◌↔◌, refl, true, false, Option, none, some, [], ◌∷◌, err, leb,
  arith, ◌||◌,
}
use dashplay_rs.Time.{saturating_mul}
use dashplay_rs.Bytes.{Bytes}
use dashplay_rs.Drm.Policy.{RenewalSchedule, default_schedule, second}
use dashplay_rs.Drm.Renewal.{
  RenewalState, is_expired, reached, needs_renewal, update_from_key_control,
  retry_interval_with_backoff, mark_renewal_failure, mark_renewal_success,
}
use dashplay_rs.Drm.Renewal.Due.{
  IsDue, needs_renewal-IsDue, base_interval, retry_interval_with_backoff-doubles,
}
use dashplay_rs.Drm.Renewal.KeyControl.{block, update_from_key_control-window}
use dashplay_rs.Drm.License
use dashplay_rs.Drm.License.{License, Key, KeyType, KeyMap, LicenseError, Answer, has_kid, decrypt}
use dashplay_rs.Drm.License.Rebuild
use dashplay_rs.Drm.License.Keys.{offers, integrate_key_set-has_kid}
use dashplay_rs.Drm.License.Decryptor.{
  IsLoaded, integrate_key_set-IsLoaded, integrate_key_set-keeps_decryptor,
}
use dashplay_rs.Drm.License.Expiry.{starts, polls, decrypt-expired}

abbrev fresh : RenewalState
fresh = record {
  renew_after = none;
  expire_at = none;
  can_renew = false;
  renewal_retry_interval = 0;
  renewal_server_url = none;
  last_attempt = none;
  failed_attempts = 0;
}

-- It expires at 100, and a renewal is due from 40 on.
abbrev running : RenewalState
running = record fresh { renew_after = some 40; expire_at = some 100; can_renew = true }

abbrev until_900 : RenewalSchedule
until_900 = record default_schedule {
  renew_after = some 840;
  expire_at = some 900;
  can_renew = true;
}

abbrev key_one : Key
key_one = record { typ = KeyType.content; kid = 1 ∷ []; key = 7 ∷ [] }

abbrev new_key_one : Key
new_key_one = record { typ = KeyType.content; kid = 1 ∷ []; key = 8 ∷ [] }

abbrev decryptor : KeyMap → Option KeyMap
decryptor keys = some keys

abbrev decrypt_with : KeyMap → Bytes → Option Bytes → Option Bytes
decrypt_with keys bytes init = some bytes

abbrev session : License KeyMap
session = record {
  content_keys = (1 ∷ [], 7 ∷ []) ∷ [];
  processor = some ((1 ∷ [], 7 ∷ []) ∷ []);
  renewal = running;
}

needs_renewal-IsDue_example : (needs_renewal running 50 ≡ true) ↔ IsDue running 50
needs_renewal-IsDue_example = needs_renewal-IsDue running 50

retry_interval_with_backoff-doubles_example :
    (retry_interval_with_backoff (mark_renewal_failure running)
      ≡ min (2 * retry_interval_with_backoff running) (saturating_mul (base_interval running) 64))
    × (retry_interval_with_backoff (mark_renewal_success running) ≡ base_interval running)
retry_interval_with_backoff-doubles_example =
    retry_interval_with_backoff-doubles running (omega arith)

update_from_key_control-window_example :
    (is_expired (update_from_key_control (2 ^ 64) (block 1 30 []) 5 fresh) 60
      ≡ leb (5 + 30 * second) 60)
    × (needs_renewal (update_from_key_control (2 ^ 64) (block 1 30 []) 5 fresh) 60
        ≡ leb (5 + 30 * second - min (60 * second) (30 * second / 10)) 60)
update_from_key_control-window_example =
    update_from_key_control-window (2 ^ 64) 1 30 [] 5 fresh 60 (omega arith) (omega arith)
      (omega arith) refl refl refl

decrypt-expired_example :
    decrypt decrypt_with
      (1 ∷ [])
      none
      130
      (License.poll_renewal decryptor
        (2 ^ 64)
        120
        (Answer.answers (some until_900) (some (key_one ∷ [])) 120)
        session).1
    ≡ err LicenseError.renewal_expired
decrypt-expired_example =
    decrypt-expired decryptor decrypt_with (2 ^ 64) {lic = session}
      (polls 120 (Answer.answers (some until_900) (some (key_one ∷ [])) 120) starts) 110 130
      (omega arith) (unfold is_expired reached in refl) (1 ∷ []) none

integrate_key_set-has_kid_example :
    has_kid
      (1 ∷ [])
      (License.integrate_key_set decryptor (2 ^ 64) (new_key_one ∷ []) 0 session).1.content_keys
    ≡ (true || offers (1 ∷ []) (new_key_one ∷ []))
integrate_key_set-has_kid_example =
    integrate_key_set-has_kid decryptor (2 ^ 64) (new_key_one ∷ []) 0 session (1 ∷ [])

integrate_key_set-IsLoaded_example :
    IsLoaded decryptor (License.integrate_key_set decryptor (2 ^ 64) (new_key_one ∷ []) 0 session).1
integrate_key_set-IsLoaded_example =
    integrate_key_set-IsLoaded decryptor (2 ^ 64) (new_key_one ∷ []) 0 session (
      unfold License.integrate_key_set License.load_keys License.content_with License.is_empty in
      refl)

integrate_key_set-keeps_decryptor_example :
    (License.integrate_key_set decryptor (2 ^ 64) (new_key_one ∷ []) 0 session).1.processor
    ≡ some ((1 ∷ [], 7 ∷ []) ∷ [])
integrate_key_set-keeps_decryptor_example =
    integrate_key_set-keeps_decryptor decryptor (2 ^ 64) (new_key_one ∷ []) 0 session
      ((1 ∷ [], 7 ∷ []) ∷ []) (λ h. refl, tt) refl

-- A builder that lists what it is given.
keys_in_order :
    Rebuild.rebuild_processor {B = KeyMap} []
      (λ kid key given. some ((kid, key) ∷ given))
      (λ given. some given)
      (λ bytes. bytes)
      ((7 ∷ [], 1 ∷ []) ∷ (2 ∷ [], 3 ∷ []) ∷ [])
    ≡ some ((7 ∷ [], 1 ∷ []) ∷ (2 ∷ [], 3 ∷ []) ∷ [])
unfolding Rebuild.rebuild_processor Rebuild.add_keys Rebuild.sorted_kids Rebuild.insert_sorted
    Rebuild.before Rebuild.get
keys_in_order = refl
