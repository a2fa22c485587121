-- ===== src/Prelude/Results.antt =====
-- Rust's `Result`, and the tests of `Option` that the code writes as methods.
use mathlib.Core.Path.{◌≡◌, refl}
use mathlib.Core.Bool.{Bool, true, false}
use mathlib.Core.Option.{Option, none, some}

pub data Result {ℓ κ} (E : Type ℓ) (A : Type κ) : Type (ℓ ⊔ κ) where
  ok : A → Result E A
  err : E → Result E A

infixl 5 ◌>>=◌
abbrev pub ◌>>=◌ {ℓ κ μ} :
    {E : Type ℓ} {A : Type κ} {B : Type μ} → Result E A → (A → Result E B) → Result E B
ok a >>= f = f a
err e >>= f = err e

abbrev pub is_some {ℓ} : {A : Type ℓ} → Option A → Bool
is_some none = false
is_some (some a) = true

abbrev pub is_none {ℓ} : {A : Type ℓ} → Option A → Bool
is_none none = true
is_none (some a) = false

abbrev pub unwrap_or {ℓ} : {A : Type ℓ} → Option A → A → A
unwrap_or none d = d
unwrap_or (some a) d = a

-- `Option::or`.
abbrev pub or_option {ℓ} : {A : Type ℓ} → Option A → Option A → Option A
or_option none d = d
or_option (some a) d = some a

-- The steps of a fallible computation that runs on fuel; `none` is that the fuel ran out.
abbrev pub and_then {ℓ κ μ} :
    {E : Type ℓ} {A : Type κ} {B : Type μ}
    → Option (Result E A)
    → (A → Option (Result E B))
    → Option (Result E B)
and_then none f = none
and_then (some (err e)) f = some (err e)
and_then (some (ok a)) f = f a

-- `Option::filter`.
abbrev pub filter_option {ℓ} : {A : Type ℓ} → (A → Bool) → Option A → Option A
filter_option p none = none
filter_option p (some a) = elim (p a) [ true ↦ some a | false ↦ none ]

-- `Option::ok_or`.
abbrev pub ok_or {ℓ κ} : {E : Type ℓ} {A : Type κ} → Option A → E → Result E A
ok_or none e = err e
ok_or (some a) e = ok a

abbrev pub map_option {ℓ κ} : {A : Type ℓ} {B : Type κ} → (A → B) → Option A → Option B
map_option f none = none
map_option f (some a) = some (f a)

module _ {ℓ κ μ} {E : Type ℓ} {A : Type κ} {B : Type μ} where
  pub and_then-cong_on :
      {f g : A → Option (Result E B)} (o : Option (Result E A))
      → ((a : A) → o ≡ some (ok a) → f a ≡ g a)
      → and_then o f ≡ and_then o g
  and_then-cong_on none h = refl
  and_then-cong_on (some (ok a)) h = h a refl
  and_then-cong_on (some (err e)) h = refl

  pub and_then-cong :
      {f g : A → Option (Result E B)} (o : Option (Result E A))
      → ((a : A) → f a ≡ g a)
      → and_then o f ≡ and_then o g
  and_then-cong o h = and_then-cong_on o (λ a e. h a)

  pub and_then_assoc {ν} :
      {C : Type ν} (o : Option (Result E A)) (f : A → Option (Result E B))
      (g : B → Option (Result E C))
      → and_then (and_then o f) g ≡ and_then o (λ a. and_then (f a) g)
  and_then_assoc none f g = refl
  and_then_assoc (some (ok a)) f g = refl
  and_then_assoc (some (err e)) f g = refl
