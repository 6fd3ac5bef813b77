-- ===== src/Translation/Targets.antt =====
-- The languages that a message is translated into.
use wp_open_omega.Translation.Learning.{
  collect, known_languages, target_languages, message_targets, or_backstop, same_name,
  translate_message, translated, remember_name, resolve_sender_key, apply_learning,
}
use wp_open_omega.Translation.{GroupState, ParticipantState, InboundMessage, participant}
use wp_open_omega.Common.{
  String, ◌≡◌, ◌≢◌, refl, subst, inl, inr, Bool, true, false, not, ◌&&◌, ◌||◌, Option, none, some,
  List, [], ◌∷◌, if◌then◌else◌, str_eq, is_empty, lookup, lookup-insert, arith, Bool-cases,
  str_eq_refl, keep,
}
use wp_open_omega.Translation.Spoken.{has, collect-spoken, collect-unwanted, has-keep, has-keep-not}

or_backstop-lacks :
    (lang : String) (targets backstop : List String)
    → has lang targets ≡ false
    → has lang backstop ≡ false
    → has lang (or_backstop targets backstop) ≡ false
or_backstop-lacks lang [] backstop h k = k
or_backstop-lacks lang (t ∷ targets) backstop h k = h

or_backstop-has :
    (lang : String) (targets backstop : List String)
    → has lang targets ≡ true
    → has lang (or_backstop targets backstop) ≡ true
or_backstop-has lang [] backstop h = cc
or_backstop-has lang (t ∷ targets) backstop h = h

or_backstop-some :
    (lang : String) (targets backstop : List String)
    → has lang backstop ≡ true
    → or_backstop targets backstop ≢ []
or_backstop-some lang [] [] h = λ e. ground arith
or_backstop-some lang [] (b ∷ backstop) h = λ e. ground arith
or_backstop-some lang (t ∷ targets) backstop h = λ e. ground arith

-- The targets leave the source out, are not empty if somebody speaks `lang`, and have it unless the
-- sender speaks it.
abbrev pub Delivers : String → String → Option String → List String → Type 0
Delivers lang source sender_lang targets =
    (has source targets ≡ false)
    × (targets ≢ [])
    × ((same_name sender_lang lang || has lang targets) ≡ true)

message_targets-Delivers :
    (state : GroupState) (source lang wid : String) (sender_lang : Option String)
    (p : ParticipantState)
    → lookup wid state.participants ≡ some p
    → p.enabled ≡ true
    → p.lang ≡ some lang
    → is_empty lang ≡ false
    → str_eq lang source ≡ false
    → Delivers lang source sender_lang (message_targets state source sender_lang)
unfolding message_targets target_languages known_languages
message_targets-Delivers state source lang wid sender_lang p found on speaks named apart =
    let wanted : String → Bool = λ l. not (str_eq l source) && not (same_name sender_lang l) in
    let targets : List String = collect wanted state.participants [] in
    let known : List String = collect (λ l. true) state.participants [] in
    let backstop : List String = keep (λ l. not (str_eq l source)) known in
    (
      or_backstop-lacks source targets backstop
          (collect-unwanted wanted source state.participants [] (λ l h. ground arith) refl)
          (has-keep-not source known),
      or_backstop-some lang targets backstop (
          has-keep lang source known apart (
            collect-spoken (λ l. true) wid lang p state.participants [] found on speaks named
              refl)),
      elim (Bool-cases (same_name sender_lang lang)) [
        | inl own ↦ rw own refl
        | inr foreign ↦ rw foreign (
            or_backstop-has lang targets backstop (
              collect-spoken wanted wid lang p state.participants [] found on speaks named
                (rw (apart, foreign) refl)))
      ],
    )

-- The language of the one that a message belongs to.
abbrev pub sender_lang_of : GroupState → InboundMessage → GroupState → Option String
sender_lang_of before msg after =
    (participant (resolve_sender_key before msg.author msg.push_name) after).lang

translated-Delivers :
    (key : String) (state : GroupState) (sender : ParticipantState) (detected lang wid : String)
    (p : ParticipantState)
    → lookup wid (translated key state sender detected).0.participants ≡ some p
    → p.enabled ≡ true
    → p.lang ≡ some lang
    → is_empty lang ≡ false
    → str_eq lang (translated key state sender detected).1.0 ≡ false
    → Delivers lang
        (translated key state sender detected).1.0
        (participant key (translated key state sender detected).0).lang
        (translated key state sender detected).1.1
translated-Delivers key state sender detected lang wid p found on speaks named apart =
    let learned : ParticipantState = apply_learning detected sender in
    let after : GroupState = (translated key state sender detected).0 in
    rw (lookup-insert key key learned state.participants, str_eq_refl key)
      (message_targets-Delivers after (translated key state sender detected).1.0 lang wid
        learned.lang p found on speaks named apart)

guarded_some {ℓ} : {A : Type ℓ} (b : Bool) (x r : A) → (if b then some x else none) ≡ some r → x ≡ r
guarded_some true x r e = cc
guarded_some false x r e = cc

-- Whenever a message is translated and the group as it is stored then has an enabled participant
-- who speaks a language other than the source: the source is none of the targets, there is a
-- target, and that language is one of them unless it is the sender's own.
pub translate_message-Delivers :
    (detected : Option String) (msg : InboundMessage) (state : GroupState)
    (r : GroupState × (String × List String)) (wid lang : String) (p : ParticipantState)
    → translate_message detected msg state ≡ some r
    → lookup wid r.0.participants ≡ some p
    → p.enabled ≡ true
    → p.lang ≡ some lang
    → is_empty lang ≡ false
    → str_eq lang r.1.0 ≡ false
    → Delivers lang r.1.0 (sender_lang_of state msg r.0) r.1.1
unfolding translate_message
translate_message-Delivers none msg state r wid lang p done found on speaks named apart =
    ground arith
translate_message-Delivers (some detected) msg state r wid lang p done found on speaks named apart =
    let key : String = resolve_sender_key state msg.author msg.push_name in
    let sender : ParticipantState = remember_name msg.push_name (participant key state) in
    let e : translated key state sender detected ≡ r =
      guarded_some sender.enabled (translated key state sender detected) r done in
    subst
      (λ x.
        lookup wid x.0.participants ≡ some p
        → str_eq lang x.1.0 ≡ false
        → Delivers lang x.1.0 (sender_lang_of state msg x.0) x.1.1)
      e (λ f a. translated-Delivers key state sender detected lang wid p f on speaks named a) found
      apart
