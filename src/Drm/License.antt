-- ===== src/Drm/License.antt =====
-- A license session and its renewal (src/drm/widevine.rs, src/drm/coordinator.rs). How a decryptor
-- comes from a set of keys is a parameter here, `rebuild_processor`, for which Rebuild has the loop
-- of the code around the builder of another library. What the decryptor answers is a parameter too,
-- and so is what the CDM reads in a license message: the schedule, if it parses, and the keys. The
-- lock is never poisoned.
pub mod Rebuild
pub mod Keys
pub mod Decryptor
pub mod Expiry
use dashplay_rs.Prelude.{
  ℕ, Bool, true, false, not, ◌&&◌, ◌||◌, Option, none, some, List, [], ◌∷◌, if◌then◌else◌, Result,
  ok, err, is_some, is_none,
}
use dashplay_rs.Bytes.{Bytes, eq_bytes}
use dashplay_rs.Drm.Policy.{RenewalSchedule}
use dashplay_rs.Drm.Renewal.{
  RenewalState, merge_parsed, update_from_key_control, needs_renewal, is_expired, renewal_can_renew,
  mark_renewal_attempt, mark_renewal_success, mark_renewal_failure,
}

pub data KeyType : Type 0 where
  signing : KeyType
  content : KeyType
  key_control : KeyType
  operator_session : KeyType
  entitlement : KeyType
  oem_content : KeyType

pub record Key : Type 0 where
  pub typ : KeyType
  pub kid : Bytes
  pub key : Bytes

pub data LicenseError : Type 0 where
  license_not_set : LicenseError
  widevine_no_content_keys : LicenseError
  renewal_expired : LicenseError
  widevine : LicenseError
  mp4_decrypt : LicenseError

-- `content_keys`: the key of each key id.
abbrev pub KeyMap : Type 0
KeyMap = List (Bytes × Bytes)

abbrev pub has_kid : Bytes → KeyMap → Bool
has_kid kid [] = false
has_kid kid ((k, v) ∷ keys) = eq_bytes kid k || has_kid kid keys

-- `HashMap::insert`
abbrev pub insert : Bytes → Bytes → KeyMap → KeyMap
insert kid key [] = (kid, key) ∷ []
insert kid key ((k, v) ∷ keys) =
    if eq_bytes kid k then (k, key) ∷ keys else (k, v) ∷ insert kid key keys

pub record License (P : Type 0) : Type 0 where
  pub content_keys : KeyMap
  pub processor : Option P
  pub renewal : RenewalState

unfoldable pub control_with : ℕ → ℕ → Key → RenewalState → RenewalState
control_with latest applied_at k st = elim k.typ [
  | KeyType.key_control ↦ update_from_key_control latest k.key applied_at st
  | _ ↦ st
]

-- The first loop of `integrate_key_set`.
unfoldable pub control_keys : ℕ → ℕ → List Key → RenewalState → RenewalState
control_keys latest applied_at [] st = st
control_keys latest applied_at (k ∷ ks) st =
    control_keys latest applied_at ks (control_with latest applied_at k st)

abbrev pub is_content : Key → Bool
is_content k = elim k.typ [ KeyType.content ↦ true | _ ↦ false ]

-- The second loop: the keys, and whether one of them has a new id.
unfoldable pub content_with : List Key → KeyMap → Bool → KeyMap × Bool
content_with [] keys added = (keys, added)
content_with (k ∷ ks) keys added =
    if is_content k
    then content_with ks (insert k.kid k.key keys) (added || not (has_kid k.kid keys))
    else content_with ks keys added

unfoldable pub is_empty : KeyMap → Bool
is_empty [] = true
is_empty (k ∷ ks) = false

-- What comes back in a session's turn of `poll_renewals`.
pub data Answer : Type 0 where
  no_url : Answer
  no_challenge : Answer
  unreachable : Answer
  answers : Option RenewalSchedule → Option (List Key) → ℕ → Answer

-- `DrmError`: where the turn failed.
pub data PollError : Type 0 where
  license_url : PollError
  license : LicenseError → PollError
  license_http : PollError

module _ {P : Type 0} (rebuild_processor : KeyMap → Option P) where
  abbrev pub Applied : Type 0
  Applied = Result LicenseError Unit × License P

  unfoldable pub rebuilt : Option P → License P → Applied
  rebuilt none lic = (err LicenseError.mp4_decrypt, lic)
  rebuilt (some p) lic = (ok tt, record lic { processor = some p })

  unfoldable pub load_keys : KeyMap × Bool → License P → Applied
  load_keys (keys, added) lic =
      let loaded = record lic { content_keys = keys } in
      if is_empty keys
      then (err LicenseError.widevine_no_content_keys, loaded)
      else if added || is_none lic.processor
      then rebuilt (rebuild_processor keys) loaded
      else (ok tt, loaded)

  unfoldable pub integrate_key_set : ℕ → List Key → ℕ → License P → Applied
  integrate_key_set latest key_set applied_at lic =
      load_keys (content_with key_set lic.content_keys false)
        (record lic { renewal = control_keys latest applied_at key_set lic.renewal })

  unfoldable pub integrate_if : ℕ → Option (List Key) → ℕ → License P → Applied
  integrate_if latest none applied_at lic = (err LicenseError.widevine, lic)
  integrate_if latest (some key_set) applied_at lic =
      integrate_key_set latest key_set applied_at lic

  unfoldable pub apply_license :
      ℕ → Option RenewalSchedule → Option (List Key) → ℕ → License P → Applied
  apply_license latest schedule keys applied_at lic =
      integrate_if latest keys applied_at
        (record lic { renewal = merge_parsed schedule lic.renewal })

  abbrev pub Polled : Type 0
  Polled = Result PollError Unit × License P

  unfoldable pub failed : ℕ → PollError → License P → Polled
  failed now e lic =
      let d = record lic { renewal = mark_renewal_failure lic.renewal } in
      if is_expired d.renewal now then (err e, d) else (ok tt, d)

  unfoldable pub settle : ℕ → Applied → Polled
  settle now (ok _, lic) = (ok tt, record lic { renewal = mark_renewal_success lic.renewal })
  settle now (err e, lic) = failed now (PollError.license e) lic

  unfoldable pub attempt : ℕ → ℕ → Answer → License P → Polled
  attempt latest now no_url lic = (err PollError.license_url, lic)
  attempt latest now no_challenge lic = (
    err (PollError.license LicenseError.widevine),
    record lic { renewal = mark_renewal_failure (mark_renewal_attempt now lic.renewal) },
  )
  attempt latest now unreachable lic =
      failed now PollError.license_http
        (record lic { renewal = mark_renewal_attempt now lic.renewal })
  attempt latest now (answers schedule keys applied_at) lic = settle now (
      apply_license latest schedule keys applied_at
        (record lic { renewal = mark_renewal_attempt now lic.renewal }))

  -- The turn of one session.
  unfoldable pub poll_renewal : ℕ → ℕ → Answer → License P → Polled
  poll_renewal latest now answer lic =
      if not (renewal_can_renew lic.renewal) || not (needs_renewal lic.renewal now)
      then (ok tt, lic)
      else attempt latest now answer lic

-- `decrypt_with` is the processor's answer.
module _ {P : Type 0} (decrypt_with : P → Bytes → Option Bytes → Option Bytes) where
  decrypted : Option Bytes → Result LicenseError Bytes
  decrypted none = err LicenseError.mp4_decrypt
  decrypted (some bytes) = ok bytes

  unfoldable pub decrypt : Bytes → Option Bytes → ℕ → License P → Result LicenseError Bytes
  unfolding decrypted
  decrypt ciphertext init now lic =
      if is_expired lic.renewal now then err LicenseError.renewal_expired else (elim lic.processor [
        | none ↦ err LicenseError.license_not_set
        | some p ↦ decrypted (decrypt_with p ciphertext init)
      ])
