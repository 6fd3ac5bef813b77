-- ===== src/Translation/Tests.antt =====
-- Tests of the translation plugin.
use wp_open_omega.Translation.{
  grant, mention, GroupState, InboundMessage, ParticipantState, handle_command, apply_command,
  wid_equals,
}
use wp_open_omega.Translation.Learning.{
  translate_message, translated, resolve_sender_key, known_languages, message_targets,
  target_languages, apply_learning,
}
use wp_open_omega.Translation.Targets.{Delivers, sender_lang_of, translate_message-Delivers}
use wp_open_omega.Translation.Permissions.{IsAllowed, handle_command-IsAllowed}
use wp_open_omega.Common.{true, none, some, ◌≡◌, refl, [], ◌∷◌, split, insert, lookup, String, List}

abbrev asked : InboundMessage
asked = record {
  author = "49171:3@c.us";
  push_name = some "Ann";
  mentioned_ids = "49172@c.us" ∷ [];
}

abbrev ben : ParticipantState
ben = record {
  lang = some "pt";
  pinned = true;
  enabled = true;
  samples = 0;
  pending_lang = none;
  push_name = none;
}

abbrev quiet : GroupState
quiet = record {
  active = true;
  participants = ("49172@c.us", ben) ∷ [];
  delegated_controllers = [];
}

handle_command-IsAllowed_example :
    IsAllowed
      ("49171@c.us" ∷ [])
      asked
      quiet
      (grant mention)
      (handle_command ("49171@c.us" ∷ []) none asked quiet (grant mention)).1
handle_command-IsAllowed_example =
    handle_command-IsAllowed ("49171@c.us" ∷ []) none asked quiet (grant mention)

granted :
    (handle_command ("49171@c.us" ∷ []) none asked quiet (grant mention)).1
    ≡ record quiet { delegated_controllers = "49172@c.us" ∷ [] }
unfolding handle_command apply_command wid_equals split
granted = refl

-- A group of two, in which Ann writes what is detected as Spanish.
abbrev ann : ParticipantState
ann = record ben { lang = some "de" }

abbrev group : GroupState
group = record quiet { participants = ("49171:3@c.us", ann) ∷ quiet.participants }

abbrev sent : GroupState × (String × List String)
sent = translated "49171:3@c.us" group (record ann { push_name = some "Ann" }) "es"

translate_message-Delivers_example :
    Delivers "pt" sent.1.0 (sender_lang_of group asked sent.0) sent.1.1
unfolding translate_message resolve_sender_key known_languages message_targets apply_learning insert
    lookup
translate_message-Delivers_example =
    translate_message-Delivers (some "es") asked group sent "49172@c.us" "pt" ben refl refl refl
      refl refl refl

from_german : sent.1 ≡ ("de", "pt" ∷ [])
unfolding known_languages message_targets target_languages apply_learning insert
from_german = refl
