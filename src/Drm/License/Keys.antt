-- ===== src/Drm/License/Keys.antt =====
-- The keys that a license session holds (src/drm/widevine.rs).
use dashplay_rs.Prelude.{
  ℕ, ◌≡◌, refl, sym, ap, ap₂, ◌∙◌, Bool, true, false, Option, none, some, List, [], ◌∷◌, if_rule,
  not, ◌||◌, ◌&&◌, is_none, Bool-cases, inl, inr, ◌==◌, ==_iff,
}
use dashplay_rs.Bytes.{Bytes, eq_bytes}
use dashplay_rs.Drm.License
use dashplay_rs.Drm.License.{License, Key, KeyMap, LicenseError, has_kid, insert, is_content}

and_both : (a b : Bool) → (a && b) ≡ true → (a ≡ true) × (b ≡ true)
and_both true b h = (refl, h)
and_both false b h = cc

eq_bytes-equal : (a b : Bytes) → eq_bytes a b ≡ true → a ≡ b
eq_bytes-equal [] [] h = refl
eq_bytes-equal [] (y ∷ ys) h = cc
eq_bytes-equal (x ∷ xs) [] h = cc
eq_bytes-equal (x ∷ xs) (y ∷ ys) h =
    let (head, tail) = and_both (x == y) (eq_bytes xs ys) h in
    ap₂ (λ a as'. a ∷ as') ((==_iff x y).0 head) (eq_bytes-equal xs ys tail)

or_swap : (a b c : Bool) → (a || (b || c)) ≡ ((a || b) || c)
or_swap true b c = refl
or_swap false b c = refl

or_none : (a : Bool) → (a || false) ≡ a
or_none true = refl
or_none false = refl

or_last : (a b c : Bool) → c ≡ a → (a || b) ≡ ((a || b) || c)
or_last true b c h = refl
or_last false true c h = refl
or_last false false c h = sym h

pub has_kid-insert :
    (kid k v : Bytes) (keys : KeyMap)
    → has_kid kid (insert k v keys) ≡ (has_kid kid keys || eq_bytes kid k)
has_kid-insert kid k v [] = or_none (eq_bytes kid k)
has_kid-insert kid k v ((k', v') ∷ keys) = elim (Bool-cases (eq_bytes k k')) [
  | inl same ↦ rw same (
      or_last (eq_bytes kid k') (has_kid kid keys) (eq_bytes kid k)
        (ap (eq_bytes kid) (eq_bytes-equal k k' same)))
  | inr other ↦
      rw (other, has_kid-insert kid k v keys)
        (or_swap (eq_bytes kid k') (has_kid kid keys) (eq_bytes kid k))
]

-- A CONTENT key of the list has the id.
abbrev pub offers : Bytes → List Key → Bool
offers kid [] = false
offers kid (k ∷ ks) = (is_content k && eq_bytes kid k.kid) || offers kid ks

has_kid-content_with :
    (kid : Bytes) (ks : List Key) (keys : KeyMap) (added : Bool)
    → has_kid kid (License.content_with ks keys added).0 ≡ (has_kid kid keys || offers kid ks)
unfolding License.content_with
has_kid-content_with kid [] keys added = sym (or_none (has_kid kid keys))
has_kid-content_with kid (k ∷ ks) keys added = elim (Bool-cases (is_content k)) [
  | inl is ↦
      rw
        (
          is,
          has_kid-content_with kid ks (insert k.kid k.key keys) (added || not (has_kid k.kid keys)),
          has_kid-insert kid k.kid k.key keys,
        )
        (sym (or_swap (has_kid kid keys) (eq_bytes kid k.kid) (offers kid ks)))
  | inr other ↦ rw (other, has_kid-content_with kid ks keys added)
]

module _ {P : Type 0} (rebuild : KeyMap → Option P) where
  rebuilt-content_keys :
      (o : Option P) (lic : License P)
      → (License.rebuilt rebuild o lic).1.content_keys ≡ lic.content_keys
  unfolding License.rebuilt
  rebuilt-content_keys none lic = refl
  rebuilt-content_keys (some p) lic = refl

  load_keys-content_keys :
      (x : KeyMap × Bool) (lic : License P) → (License.load_keys rebuild x lic).1.content_keys ≡ x.0
  unfolding License.load_keys
  load_keys-content_keys (keys, added) lic =
      if_rule (λ (r : License.Applied rebuild). r.1.content_keys ≡ keys) (License.is_empty keys)
        refl
        (if_rule (λ (r : License.Applied rebuild). r.1.content_keys ≡ keys)
          (added || is_none lic.processor)
          (rebuilt-content_keys (rebuild keys) (record lic { content_keys = keys })) refl)

  -- After a set of keys has been integrated, with success or not, the session holds a key id exactly
  -- if it held it before or a CONTENT key of the set has it: no key is lost in a rotation.
  pub integrate_key_set-has_kid :
      (latest : ℕ) (ks : List Key) (applied_at : ℕ) (lic : License P) (kid : Bytes)
      → has_kid kid (License.integrate_key_set rebuild latest ks applied_at lic).1.content_keys
        ≡ (has_kid kid lic.content_keys || offers kid ks)
  unfolding License.integrate_key_set
  integrate_key_set-has_kid latest ks applied_at lic kid =
      ap (has_kid kid) (load_keys-content_keys (License.content_with ks lic.content_keys false) _)
      ∙ has_kid-content_with kid ks lic.content_keys false
