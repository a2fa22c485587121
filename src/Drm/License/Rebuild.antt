-- ===== src/Drm/License/Rebuild.antt =====
-- `rebuild_processor` of src/drm/widevine.rs: each key, in the order of the key ids, is handed to the
-- builder of a decryptor. The builder and the hex encoding come from other libraries.
use dashplay_rs.Prelude.{
  Bool, true, false, ◌&&◌, ◌||◌, Option, none, some, List, [], ◌∷◌, if◌then◌else◌, ltb, ◌==◌,
}
use dashplay_rs.Bytes.{Bytes, eq_bytes}
use dashplay_rs.Drm.License.{KeyMap}

-- The order of byte arrays.
unfoldable pub before : Bytes → Bytes → Bool
before [] [] = false
before [] (y ∷ ys) = true
before (x ∷ xs) [] = false
before (x ∷ xs) (y ∷ ys) = ltb x y || (x == y && before xs ys)

unfoldable pub insert_sorted : Bytes → List Bytes → List Bytes
insert_sorted kid [] = kid ∷ []
insert_sorted kid (k ∷ kids) =
    let rest = insert_sorted kid kids in if before k kid then k ∷ rest else kid ∷ k ∷ kids

-- `content_keys.keys().copied().collect()`, then `sort_unstable`; the ids differ.
unfoldable pub sorted_kids : KeyMap → List Bytes
sorted_kids [] = []
sorted_kids ((kid, key) ∷ keys) = insert_sorted kid (sorted_kids keys)

-- `HashMap::get`
unfoldable pub get : Bytes → KeyMap → Option Bytes
get kid [] = none
get kid ((k, key) ∷ keys) = let rest = get kid keys in if eq_bytes kid k then some key else rest

module _ {B P : Type 0} (new : B) (key : Bytes → Bytes → B → Option B) (build : B → Option P)
    (hex_encode : Bytes → Bytes) where
  -- `builder.key(…)?` of each key id. An id without a key does not occur, as all come from the map.
  unfoldable pub add_keys : KeyMap → List Bytes → B → Option B
  add_keys content_keys [] builder = some builder
  add_keys content_keys (kid ∷ kids) builder = elim (get kid content_keys) [
    | none ↦ none
    | some key_bytes ↦ elim (key (hex_encode kid) (hex_encode key_bytes) builder) [
      | none ↦ none
      | some next ↦ add_keys content_keys kids next
    ]
  ]

  unfoldable pub rebuild_processor : KeyMap → Option P
  rebuild_processor content_keys = elim (add_keys content_keys (sorted_kids content_keys) new) [
    | none ↦ none
    | some builder ↦ build builder
  ]
