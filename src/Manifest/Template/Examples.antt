-- ===== src/Manifest/Template/Examples.antt =====
-- Templates at concrete inputs.
use dashplay_rs.Prelude.{◌≡◌, refl, true, false, arith, none, some, List, [], ◌∷◌}
use dashplay_rs.Bytes.{Bytes}
use dashplay_rs.Manifest.Ranges
use dashplay_rs.Manifest.Template
use dashplay_rs.Manifest.Template.{
  TemplateVars, rep_id, number_ident, interpolate_template, template_contains_number_or_time_ident,
  format_dash_integer, dash_format_width,
}
use dashplay_rs.Manifest.Template.Pieces.{
  Piece, AllStand, text, dollar, ident, formatted, render_all, interpolate_template-render_all,
}

abbrev vars : TemplateVars
vars = record {
  representation_id = b'v' ∷ b'1' ∷ [];
  bandwidth = none;
  width = none;
  height = none;
  frame_rate = none;
  ext = none;
  initialization = none;
  number = some 42;
  time = none;
  sub_number = none;
}

padded : format_dash_integer 42 5 ≡ b'0' ∷ b'0' ∷ b'0' ∷ b'4' ∷ b'2' ∷ []
unfolding format_dash_integer Template.decimal_from
padded = refl

not_cut : format_dash_integer 1234 2 ≡ b'1' ∷ b'2' ∷ b'3' ∷ b'4' ∷ []
unfolding format_dash_integer Template.decimal_from
not_cut = refl

width_of_tag : dash_format_width (some (b'%' ∷ b'0' ∷ b'5' ∷ b'd' ∷ [])) ≡ 5
unfolding dash_format_width Ranges.parse_u64 Ranges.digits_from
width_of_tag = refl

-- A template `$RepresentationID$/seg-$Number%05d$`.
abbrev pieces : List Piece
pieces =
    ident rep_id
    ∷ text (b'/' ∷ b's' ∷ b'-' ∷ [])
    ∷ formatted number_ident (b'0' ∷ b'5' ∷ b'd' ∷ [])
    ∷ dollar
    ∷ []

abbrev url : Bytes
url = b'v' ∷ b'1' ∷ b'/' ∷ b's' ∷ b'-' ∷ b'0' ∷ b'0' ∷ b'0' ∷ b'4' ∷ b'2' ∷ b'$' ∷ []

pieces_stand : AllStand vars pieces url
unfolding Template.resolve_template_ident format_dash_integer Template.decimal_from
    dash_format_width Ranges.parse_u64 Ranges.digits_from
pieces_stand = (
  b'v' ∷ b'1' ∷ [],
  _,
  refl,
  (
    b'/' ∷ b's' ∷ b'-' ∷ [],
    _,
    ((refl, (refl, (refl, tt))), refl),
    (
      b'0' ∷ b'0' ∷ b'0' ∷ b'4' ∷ b'2' ∷ [],
      _,
      (refl, (refl, (refl, (refl, tt))), refl),
      (b'$' ∷ [], [], refl, refl, refl),
      refl,
    ),
    refl,
  ),
  refl,
)

interpolate_template-render_all_example : interpolate_template 5 vars (render_all pieces) ≡ some url
interpolate_template-render_all_example =
    interpolate_template-render_all vars pieces url 5 pieces_stand (omega arith)

has_number : template_contains_number_or_time_ident 9 (render_all pieces) ≡ some true
unfolding template_contains_number_or_time_ident Template.search_dollar Template.search_token
    Template.cut Template.parse_template_ident Template.ident_among Template.with_format
    Template.is_number_or_time
has_number = refl

-- A token that is no identifier is kept, and its second `$` may begin another.
kept :
    interpolate_template 9 vars
      (b'$' ∷ b'x' ∷ b'$' ∷ b'N' ∷ b'u' ∷ b'm' ∷ b'b' ∷ b'e' ∷ b'r' ∷ b'$' ∷ [])
    ≡ some (b'$' ∷ b'x' ∷ b'4' ∷ b'2' ∷ [])
unfolding interpolate_template Template.resumed Template.round_of Template.pushed Template.at_dollar
    Template.at_token Template.replaced Template.value_of Template.cut Template.parse_template_ident
    Template.ident_among Template.with_format Template.resolve_template_ident format_dash_integer
    Template.decimal_from dash_format_width
kept = refl

-- The search for such an identifier does not see it there.
not_seen :
    template_contains_number_or_time_ident 9
      (b'$' ∷ b'x' ∷ b'$' ∷ b'N' ∷ b'u' ∷ b'm' ∷ b'b' ∷ b'e' ∷ b'r' ∷ b'$' ∷ [])
    ≡ some false
unfolding template_contains_number_or_time_ident Template.search_dollar Template.search_token
    Template.cut Template.parse_template_ident Template.ident_among Template.with_format
    Template.is_number_or_time
not_seen = refl
