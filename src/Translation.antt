-- ===== src/Translation.antt =====
-- The translation plugin: src/plugins/extensions/translation/core/translation.coordinator.ts with the
-- types of ports.ts. The group's admins, the translator's languages and what it detects are
-- arguments; a command is the one that the parser returns, and the date of a participant's last
-- change is left out.
pub mod Permissions
pub mod Learning
pub mod Spoken
pub mod Targets
mod Tests
use wp_open_omega.Common.{
  ℕ, ◌+◌, String, Bool, true, false, not, ◌&&◌, ◌||◌, Option, none, some, List, [], ◌∷◌, ◌++◌,
  if◌then◌else◌, str_eq, str_append, is_empty, any, keep, lookup, insert, get_or_default, Text,
  units, text_eq, split,
}

pub data CommandTarget : Type 0 where
  me mention : CommandTarget
  number : String → CommandTarget

pub data ParsedCommand : Type 0 where
  help status on off : ParsedCommand
  setlang : String → CommandTarget → ParsedCommand
  auto ignore unignore grant revoke : CommandTarget → ParsedCommand

pub record ParticipantState : Type 0 where
  pub lang : Option String
  pub pinned : Bool
  pub enabled : Bool
  pub samples : ℕ
  pub pending_lang : Option String
  pub push_name : Option String

pub record GroupState : Type 0 where
  pub active : Bool
  pub participants : List (String × ParticipantState)
  pub delegated_controllers : List String

pub record InboundMessage : Type 0 where
  pub author : String
  pub push_name : Option String
  pub mentioned_ids : List String

-- What the group is told.
pub data Told : Type 0 where
  help_text status_text denied_to_all_but_admins denied usage unsupported unidentified : Told
  confirmed : Told

abbrev first_part : List Text → Text
first_part [] = []
first_part (s ∷ parts) = s

abbrev pub user_part : Text → Text
user_part w = first_part (split b':' (first_part (split b'@' w)))

unfoldable pub wid_equals : String → String → Bool
wid_equals a b = str_eq a b || text_eq (user_part (units a)) (user_part (units b))

abbrev pub first_mention : List String → Option String
first_mention [] = none
first_mention (id ∷ ids) = some id

abbrev pub resolve_target : InboundMessage → CommandTarget → Option String
resolve_target msg me = some msg.author
resolve_target msg mention = first_mention msg.mentioned_ids
resolve_target msg (number digits) = some (str_append digits "@c.us")

abbrev pub new_participant : ParticipantState
new_participant = record {
  lang = none;
  pinned = false;
  enabled = true;
  samples = 0;
  pending_lang = none;
  push_name = none;
}

abbrev pub participant : String → GroupState → ParticipantState
participant wid state = get_or_default (lookup wid state.participants) new_participant

-- A change of a participant, who is added first if there is none of the id.
abbrev pub change_participant :
    (ParticipantState → ParticipantState) → String → GroupState → GroupState
change_participant change wid state = record state {
  participants = insert wid (change (participant wid state)) state.participants;
}

abbrev pub is_self : CommandTarget → Bool
is_self me = true
is_self mention = false
is_self (number digits) = false

-- `setlang` and `auto` for oneself.
abbrev pub is_self_serve : ParsedCommand → Bool
is_self_serve (setlang lang target) = is_self target
is_self_serve (auto target) = is_self target
is_self_serve _ = false

abbrev pub is_admin_only : ParsedCommand → Bool
is_admin_only (grant target) = true
is_admin_only (revoke target) = true
is_admin_only _ = false

abbrev pub is_admin : List String → InboundMessage → Bool
is_admin admins msg = any (λ a. wid_equals a msg.author) admins

abbrev pub is_controller : List String → GroupState → InboundMessage → Bool
is_controller admins state msg =
    is_admin admins msg || any (λ c. wid_equals c msg.author) state.delegated_controllers

abbrev pub is_denied : List String → GroupState → InboundMessage → ParsedCommand → Bool
is_denied admins state msg cmd =
    not (is_self_serve cmd)
    && (if is_admin_only cmd
        then not (is_admin admins msg)
        else not (is_controller admins state msg))

-- The change of a target that is found.
abbrev pub for_target : (String → GroupState) → GroupState → Option String → Told × GroupState
for_target change state none = (unidentified, state)
for_target change state (some wid) =
    if is_empty wid then (unidentified, state) else (confirmed, change wid)

abbrev pub supports : Option (List String) → String → Bool
supports none lang = true
supports (some langs) lang = any (λ l. str_eq l lang) langs

abbrev pub set_language :
    Option (List String) → String → GroupState → Option String → Told × GroupState
set_language languages lang state none = (usage, state)
set_language languages lang state (some wid) =
    if is_empty lang || is_empty wid
    then (usage, state)
    else if not (supports languages lang)
    then (unsupported, state)
    else (
      confirmed,
      change_participant (λ p. record p { lang = some lang; pinned = true; pending_lang = none })
          wid state,
    )

abbrev pub add_member : String → List String → List String
add_member wid set = if any (λ s. str_eq s wid) set then set else set ++ wid ∷ []

-- Behind the check of the rights.
unfoldable pub apply_command :
    Option (List String) → InboundMessage → GroupState → ParsedCommand → Told × GroupState
apply_command languages msg state help = (help_text, state)
apply_command languages msg state status = (status_text, state)
apply_command languages msg state on = (confirmed, record state { active = true })
apply_command languages msg state off = (confirmed, record state { active = false })
apply_command languages msg state (setlang lang target) =
    set_language languages lang state (resolve_target msg target)
apply_command languages msg state (auto target) =
    for_target
      (λ wid. change_participant (λ p. record p { pinned = false; pending_lang = none }) wid state)
      state (resolve_target msg target)
apply_command languages msg state (ignore target) =
    for_target (λ wid. change_participant (λ p. record p { enabled = false }) wid state) state
      (resolve_target msg target)
apply_command languages msg state (unignore target) =
    for_target (λ wid. change_participant (λ p. record p { enabled = true }) wid state) state
      (resolve_target msg target)
apply_command languages msg state (grant target) =
    for_target
      (λ wid. record state { delegated_controllers = add_member wid state.delegated_controllers })
      state (resolve_target msg target)
apply_command languages msg state (revoke target) =
    for_target
      (λ wid. record state {
        delegated_controllers = keep (λ c. not (str_eq c wid)) state.delegated_controllers;
      })
      state (resolve_target msg target)

abbrev pub is_open : ParsedCommand → Bool
is_open help = true
is_open status = true
is_open _ = false

unfoldable pub handle_command :
    List String
    → Option (List String)
    → InboundMessage
    → GroupState
    → ParsedCommand
    → Told × GroupState
handle_command admins languages msg state cmd =
    if is_open cmd
    then apply_command languages msg state cmd
    else if is_denied admins state msg cmd
    then (if is_admin_only cmd then denied_to_all_but_admins else denied, state)
    else apply_command languages msg state cmd
