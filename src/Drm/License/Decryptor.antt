-- ===== src/Drm/License/Decryptor.antt =====
-- The decryptor of a license session (src/drm/widevine.rs).
use dashplay_rs.Prelude.{
  ℕ, ◌≡◌, ◌≢◌, refl, Bool, true, false, Option, none, some, List, [], ◌∷◌, if◌then◌else◌, ok, ◌||◌,
  is_none, is_some, Bool-cases, inl, inr,
}
use dashplay_rs.Bytes.{Bytes}
use dashplay_rs.Drm.License
use dashplay_rs.Drm.License.{License, Key, KeyMap, LicenseError, has_kid, insert, is_content}
use dashplay_rs.Drm.License.Keys.{has_kid-insert}

-- The CONTENT keys of the list have ids that the map holds.
abbrev pub AllKnown : List Key → KeyMap → Type 0
AllKnown [] keys = Unit
AllKnown (k ∷ ks) keys = (is_content k ≡ true → has_kid k.kid keys ≡ true) × AllKnown ks keys

AllKnown-insert :
    (ks : List Key) (kid v : Bytes) (keys : KeyMap)
    → AllKnown ks keys
    → AllKnown ks (insert kid v keys)
AllKnown-insert [] kid v keys h = tt
AllKnown-insert (k ∷ ks) kid v keys (h, hs) =
    (λ is. rw (has_kid-insert k.kid kid v keys, h is), AllKnown-insert ks kid v keys hs)

content_with-added :
    (ks : List Key) (keys : KeyMap) (added : Bool)
    → AllKnown ks keys
    → (License.content_with ks keys added).1 ≡ added
unfolding License.content_with
content_with-added [] keys added h = refl
content_with-added (k ∷ ks) keys added (h, hs) = elim (Bool-cases (is_content k)) [
  | inl is ↦
      let again =
        content_with-added ks (insert k.kid k.key keys) (added || false)
          (AllKnown-insert ks k.kid k.key keys hs) in
      rw (is, h is, again) (or_false added)
  | inr other ↦ rw (other, content_with-added ks keys added hs)
]
  where
    or_false : (a : Bool) → (a || false) ≡ a
    or_false true = refl
    or_false false = refl

module _ {P : Type 0} (rebuild : KeyMap → Option P) where
  -- The session can decrypt: it holds a key and has a decryptor.
  pub record IsLoaded (lic : License P) : Type 0 where
    pub keys : lic.content_keys ≢ []
    pub ready : is_some lic.processor ≡ true

  rebuilt-IsLoaded :
      (o : Option P) (lic : License P)
      → lic.content_keys ≢ []
      → (License.rebuilt rebuild o lic).0 ≡ ok tt
      → IsLoaded (License.rebuilt rebuild o lic).1
  unfolding License.rebuilt
  rebuilt-IsLoaded none lic nonempty h = cc
  rebuilt-IsLoaded (some p) lic nonempty h = record { keys = nonempty; ready = refl }

  rebuild_if : Bool → License P → License.Applied rebuild
  rebuild_if b lic =
      if b then License.rebuilt rebuild (rebuild lic.content_keys) lic else (ok tt, lic)

  rebuild_if-IsLoaded :
      (b : Bool) (lic : License P)
      → lic.content_keys ≢ []
      → (b ≡ false → is_some lic.processor ≡ true)
      → (rebuild_if b lic).0 ≡ ok tt
      → IsLoaded (rebuild_if b lic).1
  unfolding rebuild_if
  rebuild_if-IsLoaded true lic nonempty has h =
      rebuilt-IsLoaded (rebuild lic.content_keys) lic nonempty h
  rebuild_if-IsLoaded false lic nonempty has h = record { keys = nonempty; ready = has refl }

  has_processor : (added : Bool) (o : Option P) → (added || is_none o) ≡ false → is_some o ≡ true
  has_processor true none h = cc
  has_processor false none h = cc
  has_processor added (some p) h = refl

  load_keys-IsLoaded :
      (x : KeyMap × Bool) (lic : License P)
      → (License.load_keys rebuild x lic).0 ≡ ok tt
      → IsLoaded (License.load_keys rebuild x lic).1
  unfolding License.load_keys rebuild_if License.is_empty
  load_keys-IsLoaded ([], added) lic h = cc
  load_keys-IsLoaded (k ∷ ks, added) lic h =
      rebuild_if-IsLoaded (added || is_none lic.processor) (record lic { content_keys = k ∷ ks })
        (λ e. cc) (has_processor added lic.processor) h

  load_keys-keeps :
      (x : KeyMap × Bool) (lic : License P) (p : P)
      → x.1 ≡ false
      → lic.processor ≡ some p
      → (License.load_keys rebuild x lic).1.processor ≡ some p
  unfolding License.load_keys License.is_empty
  load_keys-keeps ([], added) lic p h k = k
  load_keys-keeps (x ∷ keys, added) lic p h k = rw (h, k)

  -- A set of keys that is integrated with success leaves a session that holds a key and has a
  -- decryptor.
  pub integrate_key_set-IsLoaded :
      (latest : ℕ) (ks : List Key) (applied_at : ℕ) (lic : License P)
      → (License.integrate_key_set rebuild latest ks applied_at lic).0 ≡ ok tt
      → IsLoaded (License.integrate_key_set rebuild latest ks applied_at lic).1
  unfolding License.integrate_key_set
  integrate_key_set-IsLoaded latest ks applied_at lic h =
      load_keys-IsLoaded (License.content_with ks lic.content_keys false) _ h

  -- When every CONTENT key of a set has an id that the session holds already, a session with a
  -- decryptor keeps that decryptor, also where the set gives an id another key.
  pub integrate_key_set-keeps_decryptor :
      (latest : ℕ) (ks : List Key) (applied_at : ℕ) (lic : License P) (p : P)
      → AllKnown ks lic.content_keys
      → lic.processor ≡ some p
      → (License.integrate_key_set rebuild latest ks applied_at lic).1.processor ≡ some p
  unfolding License.integrate_key_set
  integrate_key_set-keeps_decryptor latest ks applied_at lic p known h =
      load_keys-keeps (License.content_with ks lic.content_keys false) _ p
        (content_with-added ks lic.content_keys false known) h
