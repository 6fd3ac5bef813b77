-- ===== src/Translation/Permissions.antt =====
-- Who may change what by a command.
use wp_open_omega.Translation.{
  me, mention, number, ParsedCommand, help, status, on, off, setlang, auto, ignore, unignore, grant,
  revoke, ParticipantState, GroupState, InboundMessage, change_participant, participant,
  is_self_serve, is_admin_only, is_admin, for_target, is_controller, is_denied, set_language,
  apply_command, is_open, handle_command, supports,
}
use wp_open_omega.Common.{
  String, ◌≡◌, refl, ◌⊎◌, inl, inr, true, false, ◌||◌, Option, none, some, List, str_eq, is_empty,
  lookup, lookup-insert, arith, Bool-cases,
}

-- Nothing but the participant of the id is changed.
abbrev pub OnlyOne : String → GroupState → GroupState → Type 0
OnlyOne wid before after =
    (after.active ≡ before.active)
    × (after.delegated_controllers ≡ before.delegated_controllers)
    × ((other : String)
        → str_eq wid other ≡ false
        → lookup other after.participants ≡ lookup other before.participants)

-- What the rights of the author allow.
abbrev pub IsAllowed :
    List String → InboundMessage → GroupState → ParsedCommand → GroupState → Type 0
IsAllowed admins msg before cmd after =
    (after ≡ before)
    ⊎ (((is_self_serve cmd ≡ true) × OnlyOne msg.author before after)
        ⊎ ((is_admin admins msg ≡ true)
            ⊎ ((is_admin_only cmd ≡ false) × (is_controller admins before msg ≡ true))))

change_participant-OnlyOne :
    (change : ParticipantState → ParticipantState) (wid : String) (state : GroupState)
    → OnlyOne wid state (change_participant change wid state)
change_participant-OnlyOne change wid state = (
  refl,
  refl,
  λ other apart.
      rw (lookup-insert wid other (change (participant wid state)) state.participants, apart) refl,
)

set_language-IsAllowed :
    (admins : List String) (languages : Option (List String)) (lang : String) (msg : InboundMessage)
    (state : GroupState)
    → IsAllowed admins msg state
        (setlang lang me)
        (set_language languages lang state (some msg.author)).1
set_language-IsAllowed admins languages lang msg state =
    elim (Bool-cases (is_empty lang || is_empty msg.author)) [
      | inl empty ↦ rw (empty, set_language) (inl refl)
      | inr given ↦ elim (Bool-cases (supports languages lang)) [
        | inl known ↦
            rw (given, known, set_language)
              (inr (
                inl (
                  refl,
                  change_participant-OnlyOne
                      (λ p. record p { lang = some lang; pinned = true; pending_lang = none })
                      msg.author state,
                )))
        | inr unknown ↦ rw (given, unknown, set_language) (inl refl)
      ]
    ]

for_target-IsAllowed :
    (admins : List String) (msg : InboundMessage) (state : GroupState)
    → IsAllowed admins msg state
        (auto me)
        (for_target
          (λ wid.
            change_participant (λ p. record p { pinned = false; pending_lang = none }) wid state)
          state
          (some msg.author)).1
for_target-IsAllowed admins msg state = elim (Bool-cases (is_empty msg.author)) [
  | inl empty ↦ rw empty (inl refl)
  | inr given ↦ rw given (
      inr (
        inl (
          refl,
          change_participant-OnlyOne (λ p. record p { pinned = false; pending_lang = none })
              msg.author state,
        )))
]

-- A command that is not one for oneself and is not denied has the rights it needs.
is_denied-IsAllowed :
    (admins : List String) (msg : InboundMessage) (state after : GroupState) (cmd : ParsedCommand)
    → is_self_serve cmd ≡ false
    → is_denied admins state msg cmd ≡ false
    → IsAllowed admins msg state cmd after
is_denied-IsAllowed admins msg state after cmd other passed =
    elim (Bool-cases (is_admin admins msg)) [
      | inl admin ↦ inr (inr (inl admin))
      | inr not_admin ↦ inr (inr (inr (ground arith, ground arith)))
    ]

-- A command that is not open to all and not for oneself passes the check of the rights.
handle_command-checked :
    (admins : List String) (languages : Option (List String)) (msg : InboundMessage)
    (state : GroupState) (cmd : ParsedCommand)
    → is_open cmd ≡ false
    → is_self_serve cmd ≡ false
    → IsAllowed admins msg state cmd (handle_command admins languages msg state cmd).1
unfolding handle_command
handle_command-checked admins languages msg state cmd closed other =
    elim (Bool-cases (is_denied admins state msg cmd)) [
      | inl refused ↦ rw (closed, refused) (inl refl)
      | inr passed ↦
          is_denied-IsAllowed admins msg state (handle_command admins languages msg state cmd).1 cmd
            other passed
    ]

-- A command changes nothing; or it is one for oneself and changes the author's own entry among the
-- participants alone; or the author is an admin of the group; or, unless the command grants or
-- revokes control, the author is one to whom control is delegated.
pub handle_command-IsAllowed :
    (admins : List String) (languages : Option (List String)) (msg : InboundMessage)
    (state : GroupState) (cmd : ParsedCommand)
    → IsAllowed admins msg state cmd (handle_command admins languages msg state cmd).1
unfolding handle_command apply_command
handle_command-IsAllowed admins languages msg state help = inl refl
handle_command-IsAllowed admins languages msg state status = inl refl
handle_command-IsAllowed admins languages msg state (setlang lang me) =
    set_language-IsAllowed admins languages lang msg state
handle_command-IsAllowed admins languages msg state (auto me) =
    for_target-IsAllowed admins msg state
handle_command-IsAllowed admins languages msg state on =
    handle_command-checked admins languages msg state on refl refl
handle_command-IsAllowed admins languages msg state off =
    handle_command-checked admins languages msg state off refl refl
handle_command-IsAllowed admins languages msg state (setlang lang mention) =
    handle_command-checked admins languages msg state (setlang lang mention) refl refl
handle_command-IsAllowed admins languages msg state (setlang lang (number digits)) =
    handle_command-checked admins languages msg state (setlang lang (number digits)) refl refl
handle_command-IsAllowed admins languages msg state (auto mention) =
    handle_command-checked admins languages msg state (auto mention) refl refl
handle_command-IsAllowed admins languages msg state (auto (number digits)) =
    handle_command-checked admins languages msg state (auto (number digits)) refl refl
handle_command-IsAllowed admins languages msg state (ignore target) =
    handle_command-checked admins languages msg state (ignore target) refl refl
handle_command-IsAllowed admins languages msg state (unignore target) =
    handle_command-checked admins languages msg state (unignore target) refl refl
handle_command-IsAllowed admins languages msg state (grant target) =
    handle_command-checked admins languages msg state (grant target) refl refl
handle_command-IsAllowed admins languages msg state (revoke target) =
    handle_command-checked admins languages msg state (revoke target) refl refl
