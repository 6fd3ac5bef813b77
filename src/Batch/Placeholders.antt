-- ===== src/Batch/Placeholders.antt =====
-- What `applyVariables` leaves alone.
use mathlib.Core.List.{append_assoc, append-nil}
use wp_open_omega.Batch.Content.{Mode, outside, inside, scan, replace_vars, is_word, substitute}
use wp_open_omega.Common.{
  Text, text_eq, is_nil, ◌≡◌, ◌≢◌, refl, sym, ap, ◌∙◌, inl, inr, true, List, [], ◌∷◌, ◌++◌, arith,
  ◌==◌, ==_iff, Bool-cases, All,
}

-- What is still to be written of a text: behind an open brace, the brace and the word characters.
abbrev pending_text : Mode → Text
pending_text outside = []
pending_text (inside key) = b'{' ∷ key

-- Only empty values: every placeholder is written as it stands.
abbrev pub Literal : List (Text × Text) → Type 0
Literal vars = (key : Text) → substitute vars key ≡ b'{' ∷ (key ++ b'}' ∷ [])

All-empty-Literal :
    (vars : List (Text × Text)) → All (λ (v : Text × Text). v.1 ≡ []) vars → Literal vars
All-empty-Literal [] h key = refl
All-empty-Literal ((k, v) ∷ vars) (h, hs) key = elim (Bool-cases (text_eq k key)) [
  | inl same ↦ rw (h, same, substitute) refl
  | inr other ↦ rw (other, substitute) (All-empty-Literal vars hs key)
]

scan-Literal :
    (vars : List (Text × Text)) (lit : Literal vars) (mode : Mode) (s : Text)
    → scan vars mode s ≡ pending_text mode ++ s
unfolding scan
scan-Literal vars lit outside [] = refl
scan-Literal vars lit (inside key) [] = rw append-nil refl
scan-Literal vars lit outside (c ∷ s) = elim (Bool-cases (c == b'{')) [
  | inl brace ↦
      rw (brace, scan)
        (scan-Literal vars lit (inside []) s ∙ ap (λ d. d ∷ s) (sym ((==_iff c b'{').0 brace)))
  | inr other ↦ rw (other, scan) (ap (λ t. c ∷ t) (scan-Literal vars lit outside s))
]
scan-Literal vars lit (inside key) (c ∷ s) = elim (Bool-cases (is_word c)) [
  | inl word ↦
      rw (word, scan)
        (scan-Literal vars lit (inside (key ++ c ∷ [])) s
          ∙ ap (λ t. b'{' ∷ t) (append_assoc key (c ∷ []) s))
  | inr stop ↦ elim (Bool-cases (c == b'}')) [
    | inl close ↦ elim (Bool-cases (is_nil key)) [
      | inl bare ↦
          rw (stop, close, bare, scan)
            (bare_braces key s bare (scan-Literal vars lit outside s)
              ∙ ap (λ d. b'{' ∷ (key ++ d ∷ s)) (sym ((==_iff c b'}').0 close)))
      | inr named ↦
          rw (stop, close, named, scan)
            (rw (lit key, scan-Literal vars lit outside s)
              (ap (λ t. b'{' ∷ t) (append_assoc key (b'}' ∷ []) s)
                ∙ ap (λ d. b'{' ∷ (key ++ d ∷ s)) (sym ((==_iff c b'}').0 close))))
    ]
    | inr other ↦ elim (Bool-cases (c == b'{')) [
      | inl brace ↦
          rw (stop, other, brace, scan)
            (rw (scan-Literal vars lit (inside []) s)
              (ap (λ d. b'{' ∷ (key ++ d ∷ s)) (sym ((==_iff c b'{').0 brace))))
      | inr plain ↦
          rw (stop, other, plain, scan)
            (ap (λ t. b'{' ∷ (key ++ c ∷ t)) (scan-Literal vars lit outside s))
    ]
  ]
]
  where
    bare_braces :
        (k r : Text)
        → is_nil k ≡ true
        → scan vars outside r ≡ r
        → b'{' ∷ (b'}' ∷ scan vars outside r) ≡ b'{' ∷ (k ++ b'}' ∷ r)
    bare_braces [] r e ih = ap (λ t. b'{' ∷ (b'}' ∷ t)) ih
    bare_braces (d ∷ k) r e ih = cc

-- A text whose placeholders name no variable with a non-empty value is sent as it stands.
pub replace_vars-missing :
    (vars : List (Text × Text)) (s : Text)
    → All (λ (v : Text × Text). v.1 ≡ []) vars
    → replace_vars vars s ≡ s
unfolding replace_vars
replace_vars-missing vars s h = scan-Literal vars (All-empty-Literal vars h) outside s

-- So is a text without an open brace, whatever the variables.
pub replace_vars-braceless :
    (vars : List (Text × Text)) (s : Text) → All (λ c. c ≢ b'{') s → replace_vars vars s ≡ s
unfolding replace_vars scan
replace_vars-braceless vars [] h = refl
replace_vars-braceless vars (c ∷ s) (h, hs) = ground (arith, replace_vars-braceless vars s hs)
