-- ===== src/Template/Pieces.antt =====
-- What rendering does to a template, piece by piece.
use mathlib.Core.Path.{ap₂}
use mathlib.Core.List.{append_assoc}
use wp_open_omega.Template.{
  is_key_char, prefix_of, behind, key_checked, key_of, match_placeholder, replaced, render_from,
  render_template,
}
use wp_open_omega.Common.{
  ℕ, zero, suc, ◌+◌, ◌-◌, ◌≡◌, refl, sym, ap, ◌∙◌, true, false, Option, none, some, List, [], ◌∷◌,
  ◌++◌, arith, ◌==◌, All, length, take, length-append, Text, is_space, text_eq, if◌then◌else◌,
}

-- A text without an opening brace, or a placeholder by its first character and the others.
pub data Piece : Type 0 where
  literal : Text → Piece
  placeholder : ℕ → Text → Piece

abbrev pub IsPiece : Piece → Type 0
IsPiece (literal s) = All (λ c. (c == b'{') ≡ false) s
IsPiece (placeholder c key) = All (λ d. is_key_char d ≡ true) (c ∷ key)

abbrev pub closing : Text
closing = b'}' ∷ b'}' ∷ []

abbrev pub written : Piece → Text
written (literal s) = s
written (placeholder c key) = b'{' ∷ b'{' ∷ c ∷ (key ++ closing)

abbrev pub template_of : List Piece → Text
template_of [] = []
template_of (piece ∷ pieces) = written piece ++ template_of pieces

abbrev pub or_value : Option Text → Text → Text
or_value none match = match
or_value (some value) match = value

-- What stands for a name: the value of its first entry, or `match` if there is none or it is null.
abbrev pub value_in : List (Text × Option Text) → Text → Text → Text
value_in [] key match = match
value_in ((name, value) ∷ vars) key match =
    if text_eq name key then or_value value match else value_in vars key match

replaced-value_in :
    (vars : List (Text × Option Text)) (key match : Text)
    → replaced vars key match ≡ value_in vars key match
replaced-value_in [] key match = refl
replaced-value_in ((name, none) ∷ vars) key match = ground (arith, replaced-value_in vars key match)
replaced-value_in ((name, some v) ∷ vars) key match =
    ground (arith, replaced-value_in vars key match)

-- A literal stands, and so does a placeholder without a value.
abbrev pub value_of_piece : List (Text × Option Text) → Piece → Text
value_of_piece vars (literal s) = s
value_of_piece vars (placeholder c key) = value_in vars (c ∷ key) (written (placeholder c key))

abbrev pub values_of : List (Text × Option Text) → List Piece → Text
values_of vars [] = []
values_of vars (piece ∷ pieces) = value_of_piece vars piece ++ values_of vars pieces

key_char_not_space : (c : ℕ) → is_key_char c ≡ true → is_space c ≡ false
key_char_not_space c h = ground arith

prefix_of-key :
    (key s : Text)
    → All (λ d. is_key_char d ≡ true) key
    → prefix_of is_key_char (key ++ b'}' ∷ s) ≡ key
unfolding prefix_of
prefix_of-key [] s h = refl
prefix_of-key (c ∷ key) s h = rw h.0 (ap (λ k. c ∷ k) (prefix_of-key key s h.1))

behind-key :
    (key s : Text)
    → All (λ d. is_key_char d ≡ true) key
    → behind is_key_char (key ++ b'}' ∷ s) ≡ b'}' ∷ s
unfolding behind
behind-key [] s h = refl
behind-key (c ∷ key) s h = rw h.0 (behind-key key s h.1)

behind_first : (c : ℕ) (s : Text) → is_space c ≡ false → behind is_space (c ∷ s) ≡ c ∷ s
unfolding behind
behind_first c s h = rw h refl

key_of-written :
    (c : ℕ) (key s : Text)
    → All (λ d. is_key_char d ≡ true) (c ∷ key)
    → key_of (c ∷ (key ++ b'}' ∷ b'}' ∷ s)) ≡ some (c ∷ key, length key + 5)
unfolding key_of
key_of-written c key s h =
    let rest : Text = b'}' ∷ b'}' ∷ s in
    let apart = key_char_not_space c h.0 in
    let size : 2 + (suc (length (key ++ rest)) - suc (suc (length s))) + 2 ≡ length key + 5 =
      omega (arith, length-append key rest) in
    let first : behind is_space (c ∷ (key ++ rest)) ≡ c ∷ (key ++ rest) =
      behind_first c (key ++ rest) apart in
    let name : prefix_of is_key_char (behind is_space (c ∷ (key ++ rest))) ≡ c ∷ key =
      ap (prefix_of is_key_char) first ∙ prefix_of-key (c ∷ key) (b'}' ∷ s) h in
    let left : behind is_space (behind is_key_char (behind is_space (c ∷ (key ++ rest)))) ≡ rest =
      ap (λ u. behind is_space (behind is_key_char u)) first
      ∙ ap (behind is_space) (behind-key (c ∷ key) (b'}' ∷ s) h)
      ∙ behind_first b'}' (b'}' ∷ s) refl in
    let checked : key_of (c ∷ (key ++ rest))
        ≡ key_checked (length (c ∷ (key ++ rest))) (c ∷ key) rest =
      ap₂ (key_checked (length (c ∷ (key ++ rest)))) name left in
    checked ∙ ap (λ n. some (c ∷ key, n)) size

skip_over :
    (vars : List (Text × Option Text)) (s t : Text)
    → render_from vars (length s) (s ++ t) ≡ render_from vars zero t
unfolding render_from
skip_over vars [] t = refl
skip_over vars (c ∷ s) t = skip_over vars s t

take_over : (s t : Text) → take (length s) (s ++ t) ≡ s
take_over [] t = refl
take_over (c ∷ s) t = ap (λ u. c ∷ u) (take_over s t)

no_match : (c : ℕ) (s : Text) → (c == b'{') ≡ false → match_placeholder (c ∷ s) ≡ none
no_match c [] h = refl
no_match c (d ∷ s) h = rw (h, match_placeholder) refl

unmatched :
    (vars : List (Text × Option Text)) (c : ℕ) (s : Text)
    → match_placeholder (c ∷ s) ≡ none
    → render_from vars zero (c ∷ s) ≡ c ∷ render_from vars zero s
unfolding render_from
unmatched vars c s e = rw (e, render_from) refl

matched :
    (vars : List (Text × Option Text)) (c size : ℕ) (key s : Text)
    → match_placeholder (c ∷ s) ≡ some (key, size)
    → render_from vars zero (c ∷ s)
      ≡ replaced vars key (take size (c ∷ s)) ++ render_from vars (size - 1) s
unfolding render_from
matched vars c size key s e = rw (e, render_from) refl

literal-stands :
    (vars : List (Text × Option Text)) (s t : Text)
    → All (λ c. (c == b'{') ≡ false) s
    → render_from vars zero (s ++ t) ≡ s ++ render_from vars zero t
unfolding render_from
literal-stands vars [] t h = refl
literal-stands vars (c ∷ s) t h =
    unmatched vars c (s ++ t) (no_match c (s ++ t) h.0)
    ∙ ap (λ u. c ∷ u) (literal-stands vars s t h.1)

placeholder-replaced :
    (vars : List (Text × Option Text)) (c : ℕ) (key t : Text)
    → All (λ d. is_key_char d ≡ true) (c ∷ key)
    → render_from vars zero (written (placeholder c key) ++ t)
      ≡ replaced vars (c ∷ key) (written (placeholder c key)) ++ render_from vars zero t
unfolding render_from
placeholder-replaced vars c key t h =
    let tail : Text = b'{' ∷ c ∷ (key ++ closing) in
    let found : match_placeholder (b'{' ∷ (tail ++ t)) ≡ some (c ∷ key, length key + 5) =
      ap (λ u. key_of (c ∷ u)) (append_assoc key closing t) ∙ key_of-written c key t h in
    let size : length (b'{' ∷ tail) ≡ length key + 5 = omega (arith, length-append key closing) in
    let less : length key + 5 - 1 ≡ length tail = omega (arith, size) in
    matched vars b'{' (length key + 5) (c ∷ key) (tail ++ t) found
    ∙ rw (less, sym size)
        (ap₂ (λ u v. replaced vars (c ∷ key) u ++ v) (take_over (b'{' ∷ tail) t)
          (skip_over vars tail t))

-- Rendering a template of literal text without an opening brace and of placeholders writes the
-- pieces one behind the other: a literal as it stands, and a placeholder as its value, or as it
-- stands if the variables have none.
pub render_template-values :
    (vars : List (Text × Option Text)) (pieces : List Piece)
    → All IsPiece pieces
    → render_template vars (template_of pieces) ≡ values_of vars pieces
unfolding render_template render_from
render_template-values vars [] h = refl
render_template-values vars (literal s ∷ pieces) h =
    literal-stands vars s (template_of pieces) h.0
    ∙ ap (λ u. s ++ u) (render_template-values vars pieces h.1)
render_template-values vars (placeholder c key ∷ pieces) h =
    placeholder-replaced vars c key (template_of pieces) h.0
    ∙ ap₂ (λ u v. u ++ v) (replaced-value_in vars (c ∷ key) (written (placeholder c key)))
        (render_template-values vars pieces h.1)
