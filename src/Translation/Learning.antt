-- ===== src/Translation/Learning.antt =====
-- What the translation plugin learns from a message and which languages it is translated into:
-- resolveSenderKey, applyLearning, knownLanguages, targetLanguages and their use in translateMessage,
-- all of src/plugins/extensions/translation/core/translation.coordinator.ts. The language that the
-- translator detects is an argument; the length of a message, the calls of the translator and the
-- log are left out.
use wp_open_omega.Translation.{
  GroupState, ParticipantState, InboundMessage, participant, add_member,
}
use wp_open_omega.Common.{
  ◌+◌, String, Bool, true, false, not, ◌&&◌, ◌||◌, Option, none, some, List, [], ◌∷◌, if◌then◌else◌,
  str_eq, is_empty, any, keep, get_or_default, insert, map,
}

-- A name that is there, the same in both.
abbrev pub same_name : Option String → String → Bool
same_name none name = false
same_name (some given) name = str_eq given name

abbrev pub only_or : String → List String → String
only_or author (key ∷ []) = key
only_or author _ = author

abbrev pub named_otherwise : String → String → GroupState → List String
named_otherwise author name state =
    map (λ e. e.0)
      (keep (λ e. not (str_eq e.0 author) && same_name e.1.push_name name) state.participants)

unfoldable pub resolve_sender_key : GroupState → String → Option String → String
resolve_sender_key state author none = author
resolve_sender_key state author (some name) =
    if is_empty name || same_name (participant author state).push_name name
    then author
    else only_or author (named_otherwise author name state)

-- The language that is learned from a participant who has none yet.
abbrev pub adopted : Option String → String → Option String
adopted none detected = some detected
adopted (some lang) detected = some lang

unfoldable pub apply_learning : String → ParticipantState → ParticipantState
apply_learning detected p =
    let sampled : ParticipantState = record p { samples = p.samples + 1 } in
    if p.pinned
    then sampled
    else if same_name p.lang detected
    then record sampled { pending_lang = none }
    else if same_name p.pending_lang detected
    then record sampled { lang = some detected; pending_lang = none }
    else record sampled { lang = adopted p.lang detected; pending_lang = some detected }

abbrev pub with_lang : (String → Bool) → Option String → List String → List String
with_lang wanted none langs = langs
with_lang wanted (some lang) langs =
    if not (is_empty lang) && wanted lang then add_member lang langs else langs

-- The loop of knownLanguages and of targetLanguages.
abbrev pub collect : (String → Bool) → List (String × ParticipantState) → List String → List String
collect wanted [] langs = langs
collect wanted (e ∷ rest) langs =
    collect wanted rest (if e.1.enabled then with_lang wanted e.1.lang langs else langs)

unfoldable pub known_languages : GroupState → List String
known_languages state = collect (λ lang. true) state.participants []

unfoldable pub target_languages : GroupState → String → Option String → List String
target_languages state source sender_lang =
    collect (λ lang. not (str_eq lang source) && not (same_name sender_lang lang))
      state.participants []

abbrev pub source_language : List String → String → Option String → String
source_language known detected sender_lang =
    if any (λ l. str_eq l detected) known then detected else get_or_default sender_lang detected

abbrev pub or_backstop : List String → List String → List String
or_backstop [] backstop = backstop
or_backstop (target ∷ targets) backstop = target ∷ targets

unfoldable pub message_targets : GroupState → String → Option String → List String
message_targets state source sender_lang =
    or_backstop (target_languages state source sender_lang)
      (keep (λ l. not (str_eq l source)) (known_languages state))

abbrev pub is_unnamed : Option String → Bool
is_unnamed none = true
is_unnamed (some name) = false

abbrev pub remember_name : Option String → ParticipantState → ParticipantState
remember_name none p = p
remember_name (some name) p =
    if not (is_empty name) && (same_name p.push_name name || is_unnamed p.push_name)
    then record p { push_name = some name }
    else p

-- The group with its sender and the language of the message, which is what is stored.
abbrev pub translated :
    String → GroupState → ParticipantState → String → GroupState × (String × List String)
translated key state sender detected =
    let learned : ParticipantState = apply_learning detected sender in
    let after : GroupState = record state {
      participants = insert key learned state.participants;
    } in
    let source : String = source_language (known_languages after) detected learned.lang in
    (after, (source, message_targets after source learned.lang))

abbrev pub of_detected :
    String
    → GroupState
    → ParticipantState
    → Option String
    → Option (GroupState × (String × List String))
of_detected key state sender none = none
of_detected key state sender (some detected) = some (translated key state sender detected)

-- What is stored, and the languages from which and into which the message is translated; nothing for
-- a sender who is ignored or when the translator fails.
unfoldable pub translate_message :
    Option String → InboundMessage → GroupState → Option (GroupState × (String × List String))
translate_message detected msg state =
    let key : String = resolve_sender_key state msg.author msg.push_name in
    let sender : ParticipantState = remember_name msg.push_name (participant key state) in
    if sender.enabled then of_detected key state sender detected else none
