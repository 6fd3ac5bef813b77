-- ===== src/Template/Tests.antt =====
-- Runs of the renderer.
use wp_open_omega.Template.{
  Template, render_template, render_from, key_of, prefix_of, behind, template_text,
}
use wp_open_omega.Template.Pieces.{
  Piece, literal, placeholder, template_of, values_of, render_template-values,
}
use wp_open_omega.Common.{◌≡◌, refl, Option, none, some, List, [], ◌∷◌, Text, units}

abbrev vars : List (Text × Option Text)
vars = (units "name", some (units "Ann")) ∷ (units "gone", none) ∷ []

-- White space in the braces is allowed, a missing variable stays, and a brace too many stays.
spaced_run :
    render_template vars (units "Hi {{ name }}, {{x.y}} {{{name}}}") ≡ units "Hi Ann, {{x.y}} {Ann}"
unfolding render_template render_from key_of prefix_of behind
spaced_run = refl

abbrev greeting : Template
greeting = record {
  session_id = "s1";
  name = "greeting";
  body = units "Hi {{name}}";
  header = none;
  footer = some (units "Bye");
}

joined_run : template_text vars greeting ≡ units "Hi Ann\n\nBye"
unfolding template_text render_template render_from key_of prefix_of behind
joined_run = refl

abbrev pieces : List Piece
pieces =
    literal (units "Hi ")
    ∷ placeholder b'n' (units "ame")
    ∷ literal (units "! ")
    ∷ placeholder b'g' (units "one")
    ∷ []

render_template-values_example : render_template vars (template_of pieces) ≡ values_of vars pieces
render_template-values_example = render_template-values vars pieces (
  (refl, (refl, (refl, tt))),
  (
    (refl, (refl, (refl, (refl, tt)))),
    ((refl, (refl, tt)), ((refl, (refl, (refl, (refl, tt)))), tt)),
  ),
)
