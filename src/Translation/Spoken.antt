-- ===== src/Translation/Spoken.antt =====
-- What the loops over a group's participants collect: knownLanguages and targetLanguages of
-- src/plugins/extensions/translation/core/translation.coordinator.ts.
use wp_open_omega.Translation.Learning.{collect, with_lang}
use wp_open_omega.Translation.{ParticipantState, add_member}
use wp_open_omega.Common.{
  String, ◌≡◌, refl, inl, inr, Bool, true, false, not, ◌||◌, Option, none, some, List, [], ◌∷◌,
  ◌++◌, if◌then◌else◌, str_eq, is_empty, lookup, arith, Bool-cases, any, eq_iff, str_eq_refl, keep,
}

abbrev pub has : String → List String → Bool
has lang langs = any (λ l. str_eq l lang) langs

has-snoc :
    (lang new : String) (langs : List String)
    → has lang (langs ++ new ∷ []) ≡ (has lang langs || str_eq new lang)
has-snoc lang new [] = ground arith
has-snoc lang new (l ∷ langs) = ground (arith, has-snoc lang new langs)

has-add_member :
    (lang new : String) (langs : List String)
    → has lang (add_member new langs) ≡ (has lang langs || str_eq new lang)
has-add_member lang new langs = elim (Bool-cases (has new langs)) [
  | inl old ↦ elim (Bool-cases (str_eq new lang)) [
    | inl same ↦ ground (arith, eq_iff new lang)
    | inr other ↦ ground arith
  ]
  | inr fresh ↦ ground (arith, has-snoc lang new langs)
]

has-with_lang :
    (wanted : String → Bool) (lang : String) (spoken : Option String) (langs : List String)
    → has lang langs ≡ true
    → has lang (with_lang wanted spoken langs) ≡ true
has-with_lang wanted lang none langs h = h
has-with_lang wanted lang (some l) langs h = ground (arith, has-add_member lang l langs)

has-collect :
    (wanted : String → Bool) (lang : String) (people : List (String × ParticipantState))
    (langs : List String)
    → has lang langs ≡ true
    → has lang (collect wanted people langs) ≡ true
has-collect wanted lang [] langs h = h
has-collect wanted lang (e ∷ people) langs h =
    has-collect wanted lang people (if e.1.enabled then with_lang wanted e.1.lang langs else langs)
      (ground (arith, has-with_lang wanted lang e.1.lang langs h))

has-spoken :
    (wanted : String → Bool) (lang : String) (p : ParticipantState) (langs : List String)
    → p.enabled ≡ true
    → p.lang ≡ some lang
    → is_empty lang ≡ false
    → wanted lang ≡ true
    → has lang (if p.enabled then with_lang wanted p.lang langs else langs) ≡ true
has-spoken wanted lang p langs on speaks named asked =
    rw (on, speaks, named, asked) (ground (arith, has-add_member lang lang langs, str_eq_refl lang))

pub collect-spoken :
    (wanted : String → Bool) (wid lang : String) (p : ParticipantState)
    (people : List (String × ParticipantState)) (langs : List String)
    → lookup wid people ≡ some p
    → p.enabled ≡ true
    → p.lang ≡ some lang
    → is_empty lang ≡ false
    → wanted lang ≡ true
    → has lang (collect wanted people langs) ≡ true
unfolding lookup
collect-spoken wanted wid lang p [] langs found on speaks named asked = cc
collect-spoken wanted wid lang p ((i, q) ∷ people) langs found on speaks named asked =
    elim (Bool-cases (str_eq i wid)) [
      | inl same ↦
          let e : q ≡ p = ground arith in
          has-collect wanted lang people
            (if q.enabled then with_lang wanted q.lang langs else langs)
            (rw e (has-spoken wanted lang p langs on speaks named asked))
      | inr other ↦
          collect-spoken wanted wid lang p people
            (if q.enabled then with_lang wanted q.lang langs else langs) (ground arith) on speaks
            named asked
    ]

with_lang-unwanted :
    (wanted : String → Bool) (lang : String) (spoken : Option String) (langs : List String)
    → ((l : String) → wanted l ≡ true → str_eq l lang ≡ false)
    → has lang langs ≡ false
    → has lang (with_lang wanted spoken langs) ≡ false
with_lang-unwanted wanted lang none langs apart h = h
with_lang-unwanted wanted lang (some l) langs apart h = elim (Bool-cases (wanted l)) [
  | inl is_asked ↦ ground (arith, has-add_member lang l langs, apart l is_asked)
  | inr not_asked ↦ ground arith
]

pub collect-unwanted :
    (wanted : String → Bool) (lang : String) (people : List (String × ParticipantState))
    (langs : List String)
    → ((l : String) → wanted l ≡ true → str_eq l lang ≡ false)
    → has lang langs ≡ false
    → has lang (collect wanted people langs) ≡ false
collect-unwanted wanted lang [] langs apart h = h
collect-unwanted wanted lang (e ∷ people) langs apart h =
    collect-unwanted wanted lang people
      (if e.1.enabled then with_lang wanted e.1.lang langs else langs) apart
      (ground (arith, with_lang-unwanted wanted lang e.1.lang langs apart h))

pub has-keep :
    (lang source : String) (langs : List String)
    → str_eq lang source ≡ false
    → has lang langs ≡ true
    → has lang (keep (λ l. not (str_eq l source)) langs) ≡ true
has-keep lang source [] apart h = h
has-keep lang source (l ∷ langs) apart h =
    ground (arith, eq_iff l lang, has-keep lang source langs apart)

pub has-keep-not :
    (source : String) (langs : List String)
    → has source (keep (λ l. not (str_eq l source)) langs) ≡ false
has-keep-not source [] = refl
has-keep-not source (l ∷ langs) = ground (arith, has-keep-not source langs)
