-- ===== src/Manifest/Template.antt =====
-- The identifiers of a URL template (src/manifest/template.rs). Strings are their bytes.
pub mod Pieces
mod Examples
use dashplay_rs.Prelude.{
  ℕ, zero, suc, ◌+◌, ◌-◌, ◌/◌, ◌%◌, max, Bool, true, false, not, ◌&&◌, ◌||◌, Option, none, some,
  List, [], ◌∷◌, ◌++◌, length, take, drop, replicate, ltb, ◌==◌, if◌then◌else◌, unwrap_or,
  map_option, is_some,
}
use dashplay_rs.Bytes.{Bytes, eq_bytes}
use dashplay_rs.Manifest.Ranges.{parse_u64}

pub record TemplateVars : Type 0 where
  pub representation_id : Bytes
  pub bandwidth : Option ℕ
  pub width : Option ℕ
  pub height : Option ℕ
  pub frame_rate : Option Bytes
  pub ext : Option Bytes
  pub initialization : Option Bytes
  pub number : Option ℕ
  pub time : Option ℕ
  pub sub_number : Option ℕ

pub data TemplateIdent : Type 0 where
  rep_id : TemplateIdent
  number_ident : TemplateIdent
  bandwidth_ident : TemplateIdent
  time_ident : TemplateIdent
  sub_number_ident : TemplateIdent
  width_ident : TemplateIdent
  height_ident : TemplateIdent
  frame_rate_ident : TemplateIdent
  ext_ident : TemplateIdent
  initialization_ident : TemplateIdent

-- `str::find` of one byte: what stands before it, and what stands behind it where it is there.
unfoldable pub cut : ℕ → Bytes → Bytes × Option Bytes
cut c [] = ([], none)
cut c (x ∷ xs) =
    let (before, behind) = cut c xs in if x == c then ([], some xs) else (x ∷ before, behind)

-- The decimal digits of a `u64`, of which there are at most 20, before `rest`.
unfoldable pub decimal_from : ℕ → ℕ → Bytes → Bytes
decimal_from zero n rest = rest
decimal_from (suc fuel) n rest =
    let more = (b'0' + n % 10) ∷ rest in
    elim (ltb n 10) [ true ↦ more | false ↦ decimal_from fuel (n / 10) more ]

abbrev pub decimal : ℕ → Bytes
decimal n = decimal_from 20 n []

-- `format!("{:0width$}", value)`
unfoldable pub format_dash_integer : ℕ → ℕ → Bytes
format_dash_integer value width =
    let digits = decimal value in replicate (max width 1 - length digits) b'0' ++ digits

unfoldable pub dash_format_width : Option Bytes → ℕ
dash_format_width none = 1
dash_format_width (some format) =
    let n = length format in
    let width = take (n - 1 - 2) (drop 2 format) in
    if not (eq_bytes (take 2 format) (b'%' ∷ b'0' ∷ []))
      || not (eq_bytes (drop (n - 1) format) (b'd' ∷ []))
      || ltb n 4
    then 1
    else max (unwrap_or (parse_u64 width) 1) 1

abbrev pub name_of : TemplateIdent → Bytes
name_of rep_id =
    b'R' ∷ b'e' ∷ b'p' ∷ b'r' ∷ b'e' ∷ b's' ∷ b'e' ∷ b'n' ∷ b't' ∷ b'a' ∷ b't' ∷ b'i' ∷ b'o' ∷ b'n'
    ∷ b'I' ∷ b'D' ∷ []
name_of number_ident = b'N' ∷ b'u' ∷ b'm' ∷ b'b' ∷ b'e' ∷ b'r' ∷ []
name_of bandwidth_ident = b'B' ∷ b'a' ∷ b'n' ∷ b'd' ∷ b'w' ∷ b'i' ∷ b'd' ∷ b't' ∷ b'h' ∷ []
name_of time_ident = b'T' ∷ b'i' ∷ b'm' ∷ b'e' ∷ []
name_of sub_number_ident = b'S' ∷ b'u' ∷ b'b' ∷ b'N' ∷ b'u' ∷ b'm' ∷ b'b' ∷ b'e' ∷ b'r' ∷ []
name_of width_ident = b'W' ∷ b'i' ∷ b'd' ∷ b't' ∷ b'h' ∷ []
name_of height_ident = b'H' ∷ b'e' ∷ b'i' ∷ b'g' ∷ b'h' ∷ b't' ∷ []
name_of frame_rate_ident = b'F' ∷ b'r' ∷ b'a' ∷ b'm' ∷ b'e' ∷ b'R' ∷ b'a' ∷ b't' ∷ b'e' ∷ []
name_of ext_ident = b'E' ∷ b'x' ∷ b't' ∷ []
name_of initialization_ident =
    b'I' ∷ b'n' ∷ b'i' ∷ b't' ∷ b'i' ∷ b'a' ∷ b'l' ∷ b'i' ∷ b'z' ∷ b'a' ∷ b't' ∷ b'i' ∷ b'o' ∷ b'n'
    ∷ []

-- The arms of the `match` on the name, in order.
abbrev pub idents : List TemplateIdent
idents =
    rep_id ∷ number_ident ∷ bandwidth_ident ∷ time_ident ∷ sub_number_ident ∷ width_ident
    ∷ height_ident ∷ frame_rate_ident ∷ ext_ident ∷ initialization_ident ∷ []

unfoldable pub ident_among : List TemplateIdent → Bytes → Option TemplateIdent
ident_among [] name = none
ident_among (i ∷ is) name =
    let rest = ident_among is name in if eq_bytes name (name_of i) then some i else rest

-- Identifiers that take no format tag.
abbrev pub is_plain : TemplateIdent → Bool
is_plain rep_id = true
is_plain frame_rate_ident = true
is_plain ext_ident = true
is_plain initialization_ident = true
is_plain _ = false

unfoldable pub with_format :
    Option TemplateIdent → Option Bytes → Option (TemplateIdent × Option Bytes)
with_format none format = none
with_format (some i) format = if is_plain i && is_some format then none else some (i, format)

unfoldable pub parse_template_ident : Bytes → Option (TemplateIdent × Option Bytes)
parse_template_ident token =
    let (name, behind) = cut b'%' token in
    with_format (ident_among idents name) (map_option (λ tag. b'%' ∷ tag) behind)

unfoldable pub resolve_template_ident : TemplateIdent → Option Bytes → TemplateVars → Option Bytes
resolve_template_ident rep_id format vars = some vars.representation_id
resolve_template_ident number_ident format vars =
    map_option (λ n. format_dash_integer n (dash_format_width format)) vars.number
resolve_template_ident bandwidth_ident format vars =
    map_option (λ n. format_dash_integer n (dash_format_width format)) vars.bandwidth
resolve_template_ident time_ident format vars =
    map_option (λ n. format_dash_integer n (dash_format_width format)) vars.time
resolve_template_ident sub_number_ident format vars =
    some (format_dash_integer (unwrap_or vars.sub_number 1) (dash_format_width format))
resolve_template_ident width_ident format vars =
    map_option (λ n. format_dash_integer n (dash_format_width format)) vars.width
resolve_template_ident height_ident format vars =
    map_option (λ n. format_dash_integer n (dash_format_width format)) vars.height
resolve_template_ident frame_rate_ident format vars = vars.frame_rate
resolve_template_ident ext_ident format vars = vars.ext
resolve_template_ident initialization_ident format vars = vars.initialization

unfoldable pub value_of : Option (TemplateIdent × Option Bytes) → TemplateVars → Option Bytes
value_of none vars = none
value_of (some (i, format)) vars = resolve_template_ident i format vars

-- What is pushed for a `$`, and the rest of the template, by the value of the token.
unfoldable pub replaced : Bytes → Bytes → Option Bytes → Bytes × Bytes
replaced behind beyond none = (b'$' ∷ [], behind)
replaced behind beyond (some value) = (value, beyond)

unfoldable pub at_token : TemplateVars → Bytes → Bytes × Option Bytes → Bytes × Bytes
at_token vars behind (token, none) = (b'$' ∷ [], behind)
at_token vars behind (token, some beyond) =
    replaced behind beyond (value_of (parse_template_ident token) vars)

-- The same, from what stands behind the `$`.
unfoldable pub at_dollar : TemplateVars → Bytes → Bytes × Bytes
at_dollar vars [] = (b'$' ∷ [], [])
at_dollar vars (c ∷ cs) =
    if c == b'$' then (b'$' ∷ [], cs) else at_token vars (c ∷ cs) (cut b'$' (c ∷ cs))

-- A round of the loop: what it pushes, and the rest of the template where it goes on.
pub data Round : Type 0 where
  last : Bytes → Round
  goes : Bytes → Bytes → Round

unfoldable pub pushed : Bytes → Bytes × Bytes → Round
pushed text (value, rest) = goes (text ++ value) rest

unfoldable pub round_of : TemplateVars → Bytes × Option Bytes → Round
round_of vars (text, none) = last text
round_of vars (text, some behind) = pushed text (at_dollar vars behind)

unfoldable pub resumed : (Bytes → Option Bytes) → Round → Option Bytes
resumed next (last text) = some text
resumed next (goes text more) = map_option (λ out. text ++ out) (next more)

-- `while !rest.is_empty() { … }` on fuel; `none` is that it ran out.
unfoldable pub interpolate_template : ℕ → TemplateVars → Bytes → Option Bytes
interpolate_template zero vars rest = none
interpolate_template (suc fuel) vars rest =
    resumed (interpolate_template fuel vars) (round_of vars (cut b'$' rest))

-- Whether a template has `$Number$` or `$Time$`.
unfoldable pub is_number_or_time : Option (TemplateIdent × Option Bytes) → Bool
is_number_or_time (some (number_ident, format)) = true
is_number_or_time (some (time_ident, format)) = true
is_number_or_time _ = false

-- A round of that search: it ends, or goes on with the rest.
pub data Search : Type 0 where
  found : Bool → Search
  on : Bytes → Search

unfoldable pub search_token : Bytes × Option Bytes → Search
search_token (token, none) = found false
search_token (token, some beyond) =
    if is_number_or_time (parse_template_ident token) then found true else on beyond

unfoldable pub search_dollar : Bytes × Option Bytes → Search
search_dollar (text, none) = found false
search_dollar (text, some []) = found false
search_dollar (text, some (c ∷ cs)) = if c == b'$' then on cs else search_token (cut b'$' (c ∷ cs))

unfoldable pub template_contains_number_or_time_ident : ℕ → Bytes → Option Bool
template_contains_number_or_time_ident zero rest = none
template_contains_number_or_time_ident (suc fuel) rest = elim (search_dollar (cut b'$' rest)) [
  | found b ↦ some b
  | on more ↦ template_contains_number_or_time_ident fuel more
]
