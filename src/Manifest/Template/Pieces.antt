-- ===== src/Manifest/Template/Pieces.antt =====
-- A URL template as a list of pieces, and what it stands for (src/manifest/template.rs).
use dashplay_rs.Prelude.{
  ℕ, zero, suc, ◌+◌, ◌-◌, ◌<◌, ◌≤◌, ◌≡◌, refl, sym, ap, ◌∙◌, Bool, true, false, ◌||◌, Option, none,
  some, List, [], ◌∷◌, ◌++◌, length, length-append, append_assoc, ◌==◌, if◌then◌else◌, map_option,
  arith, Bool-cases, inl, inr,
}
use dashplay_rs.Bytes.{Bytes}
use dashplay_rs.Manifest.Template.{
  TemplateVars, TemplateIdent, rep_id, number_ident, bandwidth_ident, time_ident, sub_number_ident,
  width_ident, height_ident, frame_rate_ident, ext_ident, initialization_ident, cut, name_of,
  ident_among, is_plain, with_format, parse_template_ident, resolve_template_ident, value_of,
  replaced, at_token, at_dollar, pushed, round_of, resumed, interpolate_template,
}

-- Text, a `$` on its own, or an identifier with or without a format tag. The tag is what stands
-- behind its `%`.
pub data Piece : Type 0 where
  text : Bytes → Piece
  dollar : Piece
  ident : TemplateIdent → Piece
  formatted : TemplateIdent → Bytes → Piece

abbrev pub token_of : Piece → Bytes
token_of (ident i) = name_of i
token_of (formatted i tag) = name_of i ++ (b'%' ∷ tag)
token_of _ = []

abbrev pub render : Piece → Bytes
render (text t) = t
render dollar = b'$' ∷ b'$' ∷ []
render (ident i) = b'$' ∷ (name_of i ++ (b'$' ∷ []))
render (formatted i tag) = b'$' ∷ (name_of i ++ (b'%' ∷ (tag ++ (b'$' ∷ []))))

abbrev pub render_all : List Piece → Bytes
render_all [] = []
render_all (p ∷ ps) = render p ++ render_all ps

-- The byte does not occur.
abbrev pub Without : ℕ → Bytes → Type 0
Without c [] = Unit
Without c (x ∷ xs) = ((x == c) ≡ false) × Without c xs

-- Rounds of the loop that a piece takes.
abbrev pub rounds : Piece → ℕ
rounds (text t) = 0
rounds _ = 1

-- What a piece stands for.
abbrev pub Stands : TemplateVars → Piece → Bytes → Type 0
Stands vars (text t) value = Without b'$' t × (value ≡ t)
Stands vars dollar value = value ≡ b'$' ∷ []
Stands vars (ident i) value = resolve_template_ident i none vars ≡ some value
Stands vars (formatted i tag) value =
    (is_plain i ≡ false)
    × Without b'$' tag
    × (resolve_template_ident i (some (b'%' ∷ tag)) vars ≡ some value)

abbrev pub AllStand : TemplateVars → List Piece → Bytes → Type 0
AllStand vars [] out = out ≡ []
AllStand vars (p ∷ ps) out =
    (value : Bytes) × (more : Bytes) × Stands vars p value
    × AllStand vars ps more
    × (out ≡ value ++ more)

cut-append : (c : ℕ) (xs rest : Bytes) → Without c xs → cut c (xs ++ (c ∷ rest)) ≡ (xs, some rest)
unfolding cut
cut-append c [] rest w = let e : (c == c) ≡ true = ground arith in rw e refl
cut-append c (x ∷ xs) rest (w, ws) = rw (w, cut-append c xs rest ws) refl

-- The identifiers are recognised, with and without a tag.
parse-name : (i : TemplateIdent) → parse_template_ident (name_of i) ≡ some (i, none)
unfolding parse_template_ident cut ident_among with_format
parse-name rep_id = refl
parse-name number_ident = refl
parse-name bandwidth_ident = refl
parse-name time_ident = refl
parse-name sub_number_ident = refl
parse-name width_ident = refl
parse-name height_ident = refl
parse-name frame_rate_ident = refl
parse-name ext_ident = refl
parse-name initialization_ident = refl

parse-formatted :
    (i : TemplateIdent) (tag : Bytes)
    → is_plain i ≡ false
    → parse_template_ident (name_of i ++ (b'%' ∷ tag)) ≡ some (i, some (b'%' ∷ tag))
unfolding parse_template_ident cut ident_among with_format
parse-formatted rep_id tag h = absurd (ground (arith, h))
parse-formatted number_ident tag h = refl
parse-formatted bandwidth_ident tag h = refl
parse-formatted time_ident tag h = refl
parse-formatted sub_number_ident tag h = refl
parse-formatted width_ident tag h = refl
parse-formatted height_ident tag h = refl
parse-formatted frame_rate_ident tag h = absurd (ground (arith, h))
parse-formatted ext_ident tag h = absurd (ground (arith, h))
parse-formatted initialization_ident tag h = absurd (ground (arith, h))

true_false : {A : Type 0} → true ≡ false → A
true_false e = absurd (ground (arith, e))

has : ℕ → Bytes → Bool
has c [] = false
has c (x ∷ xs) = x == c || has c xs

Without-has : (c : ℕ) (xs : Bytes) → has c xs ≡ false → Without c xs
unfolding has
Without-has c [] h = tt
Without-has c (x ∷ xs) h = elim (Bool-cases (x == c)) [
  | inl e ↦ absurd (true_false (sym (ap (λ b. b || has c xs) e) ∙ h))
  | inr e ↦ (e, Without-has c xs (sym (ap (λ b. b || has c xs) e) ∙ h))
]

name-Without : (i : TemplateIdent) → Without b'$' (name_of i)
unfolding has
name-Without rep_id = Without-has b'$' (name_of rep_id) refl
name-Without number_ident = Without-has b'$' (name_of number_ident) refl
name-Without bandwidth_ident = Without-has b'$' (name_of bandwidth_ident) refl
name-Without time_ident = Without-has b'$' (name_of time_ident) refl
name-Without sub_number_ident = Without-has b'$' (name_of sub_number_ident) refl
name-Without width_ident = Without-has b'$' (name_of width_ident) refl
name-Without height_ident = Without-has b'$' (name_of height_ident) refl
name-Without frame_rate_ident = Without-has b'$' (name_of frame_rate_ident) refl
name-Without ext_ident = Without-has b'$' (name_of ext_ident) refl
name-Without initialization_ident = Without-has b'$' (name_of initialization_ident) refl

Without-append : (c : ℕ) (xs ys : Bytes) → Without c xs → Without c ys → Without c (xs ++ ys)
Without-append c [] ys h k = k
Without-append c (x ∷ xs) ys (e, h) k = (e, Without-append c xs ys h k)

length-name : (i : TemplateIdent) → 0 < length (name_of i)
length-name rep_id = omega arith
length-name number_ident = omega arith
length-name bandwidth_ident = omega arith
length-name time_ident = omega arith
length-name sub_number_ident = omega arith
length-name width_ident = omega arith
length-name height_ident = omega arith
length-name frame_rate_ident = omega arith
length-name ext_ident = omega arith
length-name initialization_ident = omega arith

module _ (vars : TemplateVars) where
  at_dollar-token :
      (token rest value : Bytes)
      → 0 < length token
      → Without b'$' token
      → value_of (parse_template_ident token) vars ≡ some value
      → at_dollar vars (token ++ (b'$' ∷ rest)) ≡ (value, rest)
  unfolding at_dollar at_token replaced
  at_dollar-token [] rest value filled w v = absurd (omega arith)
  at_dollar-token (c ∷ cs) rest value filled (e, w) v =
      ap
        (λ b.
          if b
          then (b'$' ∷ [], cs ++ (b'$' ∷ rest))
          else at_token vars (c ∷ (cs ++ (b'$' ∷ rest))) (cut b'$' (c ∷ (cs ++ (b'$' ∷ rest)))))
        e
      ∙ ap (at_token vars (c ∷ (cs ++ (b'$' ∷ rest)))) (cut-append b'$' (c ∷ cs) rest (e, w))
      ∙ ap (replaced (c ∷ (cs ++ (b'$' ∷ rest))) rest) v

  interpolate-dollar :
      (fuel : ℕ) (behind value rest : Bytes)
      → at_dollar vars behind ≡ (value, rest)
      → interpolate_template (suc fuel) vars (b'$' ∷ behind)
        ≡ map_option (λ out. value ++ out) (interpolate_template fuel vars rest)
  unfolding interpolate_template round_of pushed resumed cut
  interpolate-dollar fuel behind value rest h = rw h refl

  cut-text :
      (c : ℕ) (t rest : Bytes)
      → Without c t
      → cut c (t ++ rest) ≡ (t ++ (cut c rest).0, (cut c rest).1)
  unfolding cut
  cut-text c [] rest w = refl
  cut-text c (x ∷ xs) rest (e, w) = rw (e, cut-text c xs rest w) refl

  map_option-append :
      (a b : Bytes) (o : Option Bytes)
      → map_option (λ out. (a ++ b) ++ out) o
        ≡ map_option (λ out. a ++ out) (map_option (λ out. b ++ out) o)
  map_option-append a b none = refl
  map_option-append a b (some x) = ap some (append_assoc a b x)

  resumed-text :
      (next : Bytes → Option Bytes) (t x : Bytes) (o : Option Bytes)
      → resumed next (round_of vars (t ++ x, o))
        ≡ map_option (λ out. t ++ out) (resumed next (round_of vars (x, o)))
  unfolding resumed round_of pushed
  resumed-text next t x none = refl
  resumed-text next t x (some behind) =
      let value = (at_dollar vars behind).0 in
      let rest = (at_dollar vars behind).1 in
      ap (λ l. map_option (λ out. l ++ out) (next rest)) (append_assoc t x value)
      ∙ map_option-append t (x ++ value) (next rest)

  interpolate-text :
      (fuel : ℕ) (t rest : Bytes)
      → Without b'$' t
      → interpolate_template fuel vars (t ++ rest)
        ≡ map_option (λ out. t ++ out) (interpolate_template fuel vars rest)
  unfolding interpolate_template
  interpolate-text zero t rest w = refl
  interpolate-text (suc fuel) t rest w =
      ap (λ p. resumed (interpolate_template fuel vars) (round_of vars p)) (cut-text b'$' t rest w)
      ∙ resumed-text (interpolate_template fuel vars) t (cut b'$' rest).0 (cut b'$' rest).1

  interpolate-token :
      (fuel : ℕ) (token rest value : Bytes)
      → 0 < length token
      → Without b'$' token
      → value_of (parse_template_ident token) vars ≡ some value
      → interpolate_template (suc fuel) vars (b'$' ∷ (token ++ (b'$' ∷ rest)))
        ≡ map_option (λ out. value ++ out) (interpolate_template fuel vars rest)
  interpolate-token fuel token rest value filled w v =
      interpolate-dollar fuel (token ++ (b'$' ∷ rest)) value rest
        (at_dollar-token token rest value filled w v)

  name_filled : (i : TemplateIdent) (tag : Bytes) → 0 < length (name_of i ++ tag)
  name_filled i tag = omega (arith, length-append (name_of i) tag, length-name i)

  one_round :
      (fuel : ℕ) (l : Bytes)
      → interpolate_template (1 + fuel) vars l ≡ interpolate_template (suc fuel) vars l
  one_round fuel l = ap (λ n. interpolate_template n vars l) (omega arith)

  rounds_bound : (p : Piece) → rounds p ≤ 1
  rounds_bound (text t) = omega arith
  rounds_bound dollar = omega arith
  rounds_bound (ident i) = omega arith
  rounds_bound (formatted i tag) = omega arith

  -- A piece in front is replaced by what it stands for.
  interpolate-piece :
      (fuel : ℕ) (p : Piece) (rest value : Bytes)
      → Stands vars p value
      → interpolate_template (rounds p + fuel) vars (render p ++ rest)
        ≡ map_option (λ out. value ++ out) (interpolate_template fuel vars rest)
  unfolding value_of
  interpolate-piece fuel (text t) rest value (w, e) =
      ap (λ n. interpolate_template n vars (t ++ rest)) (let n : 0 + fuel ≡ fuel = omega arith in n)
      ∙ interpolate-text fuel t rest w
      ∙ ap (λ v. map_option (λ out. v ++ out) (interpolate_template fuel vars rest)) (sym e)
  interpolate-piece fuel dollar rest value e =
      one_round fuel (b'$' ∷ (b'$' ∷ rest))
      ∙ interpolate-dollar fuel (b'$' ∷ rest) value rest
          (unfold at_dollar in ap (λ v. (v, rest)) (sym e))
  interpolate-piece fuel (ident i) rest value e =
      one_round fuel (render (ident i) ++ rest)
      ∙ ap (λ l. interpolate_template (suc fuel) vars (b'$' ∷ l))
          (append_assoc (name_of i) (b'$' ∷ []) rest)
      ∙ interpolate-token fuel (name_of i) rest value (length-name i) (name-Without i)
          (ap (λ t. value_of t vars) (parse-name i) ∙ e)
  interpolate-piece fuel (formatted i tag) rest value (plain, w, e) =
      let token = name_of i ++ (b'%' ∷ tag) in
      let regroup : (name_of i ++ (b'%' ∷ (tag ++ (b'$' ∷ [])))) ++ rest ≡ token ++ (b'$' ∷ rest) =
        append_assoc (name_of i) (b'%' ∷ (tag ++ (b'$' ∷ []))) rest
        ∙ ap (λ l. name_of i ++ (b'%' ∷ l)) (append_assoc tag (b'$' ∷ []) rest)
        ∙ sym (append_assoc (name_of i) (b'%' ∷ tag) (b'$' ∷ rest)) in
      one_round fuel (render (formatted i tag) ++ rest)
      ∙ ap (λ l. interpolate_template (suc fuel) vars (b'$' ∷ l)) regroup
      ∙ interpolate-token fuel token rest value (name_filled i (b'%' ∷ tag))
          (Without-append b'$' (name_of i) (b'%' ∷ tag) (name-Without i) (refl, w))
          (ap (λ t. value_of t vars) (parse-formatted i tag plain) ∙ e)

  -- A template that is made of text without `$`, of `$$`, and of identifiers, with or without a
  -- format tag, that have a value: with more fuel than it has pieces the interpolation ends, and
  -- gives what the pieces stand for, one behind the other.
  pub interpolate_template-render_all :
      (ps : List Piece) (out : Bytes) (fuel : ℕ)
      → AllStand vars ps out
      → length ps < fuel
      → interpolate_template fuel vars (render_all ps) ≡ some out
  interpolate_template-render_all ps out zero h f = absurd (omega arith)
  interpolate_template-render_all [] out (suc fuel) h f =
      unfold interpolate_template round_of resumed cut in ap some (sym h)
  interpolate_template-render_all (p ∷ ps) out (suc fuel) (value, more, stands, h, e) f =
      let left = suc fuel - rounds p in
      let enough : suc fuel ≡ rounds p + left = omega (arith, rounds_bound p) in
      ap (λ n. interpolate_template n vars (render p ++ render_all ps)) enough
      ∙ interpolate-piece left p (render_all ps) value stands
      ∙ ap (map_option (λ l. value ++ l))
          (interpolate_template-render_all ps more left h (omega (arith, rounds_bound p)))
      ∙ ap some (sym e)
