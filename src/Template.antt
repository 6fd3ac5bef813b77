-- ===== src/Template.antt =====
-- Message templates: src/common/utils/template-render.ts, `resolve` of
-- src/modules/template/template.service.ts and `sendTemplate` of
-- src/modules/message/message.service.ts. A table is an association list by id.
pub mod Pieces
mod Tests
use wp_open_omega.Common.{
  ℕ, zero, suc, ◌+◌, ◌-◌, String, Bool, true, false, not, ◌&&◌, ◌||◌, Option, none, some, List, [],
  ◌∷◌, ◌++◌, if◌then◌else◌, leb, ◌==◌, str_eq, is_empty, lookup, length, take, drop, Text, is_nil,
  text_eq, is_space, find_row,
}

-- `[\w.-]`
abbrev pub is_key_char : ℕ → Bool
is_key_char c =
    (leb b'a' c && leb c b'z')
    || (leb b'A' c && leb c b'Z')
    || (leb b'0' c && leb c b'9')
    || c == b'_'
    || c == b'.'
    || c == b'-'

-- The longest prefix that passes a test, and what is behind it.
unfoldable pub prefix_of : (ℕ → Bool) → Text → Text
prefix_of p [] = []
prefix_of p (c ∷ s) = if p c then c ∷ prefix_of p s else []

unfoldable pub behind : (ℕ → Bool) → Text → Text
behind p [] = []
behind p (c ∷ s) = if p c then behind p s else c ∷ s

abbrev pub closes : Text → Bool
closes (c ∷ d ∷ s) = c == b'}' && d == b'}'
closes _ = false

-- Behind the opening braces: the key and the length of the whole placeholder.
abbrev pub key_checked : ℕ → Text → Text → Option (Text × ℕ)
key_checked size key rest =
    if not (is_nil key) && closes rest then some (key, 2 + (size - length rest) + 2) else none

unfoldable pub key_of : Text → Option (Text × ℕ)
key_of s =
    key_checked (length s) (prefix_of is_key_char (behind is_space s))
      (behind is_space (behind is_key_char (behind is_space s)))

-- A match of `{{\s*([\w.-]+)\s*}}` at the start of a text.
abbrev pub match_placeholder : Text → Option (Text × ℕ)
match_placeholder (c ∷ d ∷ s) = if c == b'{' && d == b'{' then key_of s else none
match_placeholder _ = none

-- `hasOwnProperty.call(vars, key) && vars[key] != null`
abbrev pub value_of : List (Text × Option Text) → Text → Option Text
value_of [] key = none
value_of ((name, value) ∷ vars) key = if text_eq name key then value else value_of vars key

abbrev pub replaced : List (Text × Option Text) → Text → Text → Text
replaced vars key match = elim (value_of vars key) [ none ↦ match | some value ↦ value ]

-- The text from here on, where `skip` more units belong to a placeholder.
unfoldable pub render_from : List (Text × Option Text) → ℕ → Text → Text
render_from vars skip [] = []
render_from vars (suc skip) (c ∷ s) = render_from vars skip s
render_from vars zero (c ∷ s) = elim (match_placeholder (c ∷ s)) [
  | none ↦ c ∷ render_from vars zero s
  | some (key, size) ↦ replaced vars key (take size (c ∷ s)) ++ render_from vars (size - 1) s
]

unfoldable pub render_template : List (Text × Option Text) → Text → Text
render_template vars body = render_from vars zero body

pub record Template : Type 0 where
  pub session_id : String
  pub name : String
  pub body : Text
  pub header : Option Text
  pub footer : Option Text

-- `findOne({ where: { id, sessionId } })` and `findOne({ where: { name, sessionId } })`.
abbrev pub in_session : String → Option Template → Option Template
in_session session none = none
in_session session (some template) =
    if str_eq template.session_id session then some template else none

unfoldable pub find_one : String → String → List (String × Template) → Option Template
find_one session id rows = in_session session (lookup id rows)

unfoldable pub find_named : String → String → List (String × Template) → Option Template
find_named session name rows =
    elim (find_row (λ template. str_eq template.name name && str_eq template.session_id session)
      rows) [ none ↦ none | some (id, template) ↦ some template ]

-- `if (templateId)`: an empty text counts as none.
abbrev pub given : Option String → Option String
given none = none
given (some s) = if is_empty s then none else some s

-- By the id if one is given, else by the name; none stands for the error that none is found.
unfoldable pub resolve :
    String → Option String → Option String → List (String × Template) → Option Template
resolve session id name rows = elim (given id) [
  | some i ↦ find_one session i rows
  | none ↦ elim (given name) [ some n ↦ find_named session n rows | none ↦ none ]
]

-- The segments that are there, rendered and joined by an empty line.
abbrev pub segment : Option Text → List Text
segment none = []
segment (some []) = []
segment (some (c ∷ s)) = (c ∷ s) ∷ []

abbrev pub join_segments : List (Text × Option Text) → List Text → Text
join_segments vars [] = []
join_segments vars (s ∷ []) = render_template vars s
join_segments vars (s ∷ t ∷ more) =
    render_template vars s ++ b'\n' ∷ b'\n' ∷ join_segments vars (t ∷ more)

unfoldable pub template_text : List (Text × Option Text) → Template → Text
template_text vars template =
    join_segments vars
      (segment template.header ++ segment (some template.body) ++ segment template.footer)
