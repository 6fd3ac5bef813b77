-- ===== src/Message/Send.antt =====
-- Single sends: `sendText`, the sends of media, locations, contacts and stickers, `reply` and
-- `forward` of src/modules/message/message.service.ts. The engine's answer, the hook
-- `message:sending`, the id that the database gives a row and whether the write behind a send
-- succeeds are arguments. The typing indicator, which changes no state, is left out.
use wp_open_omega.Message.{MessageStatus}
use wp_open_omega.Common.{
  ℕ, String, Bool, true, false, not, ◌&&◌, Option, none, some, List, if◌then◌else◌, is_empty,
  str_append, insert, get_or_default,
}

pub record SendTextMessageDto : Type 0 where
  pub chat_id : String
  pub text : String

pub record SendMediaMessageDto : Type 0 where
  pub chat_id : String
  pub url : Option String
  pub base64 : Option String
  pub mimetype : Option String
  pub filename : Option String
  pub caption : Option String

pub record MediaInput : Type 0 where
  pub mimetype : String
  pub content : String
  pub filename : Option String
  pub caption : Option String

pub data MediaKind : Type 0 where
  image video audio document sticker : MediaKind

-- The calls of the engine; a location has its two coordinates as texts.
pub data EngineCall : Type 0 where
  send_text_message : String → String → EngineCall
  send_media_message : MediaKind → String → MediaInput → EngineCall
  send_location_message : String → String → String → Option String → Option String → EngineCall
  send_contact_message : String → String → String → EngineCall
  reply_to_message : String → String → String → EngineCall
  forward_message : String → String → String → EngineCall

-- An error of the guard against internal addresses, or another one.
pub data EngineAnswer : Type 0 where
  sent_as : String → ℕ → EngineAnswer
  blocked_address other_error : EngineAnswer

-- The stored content of media, or the quoted message of a reply.
pub data Metadata : Type 0 where
  no_metadata : Metadata
  media : Option String → Option String → Option String → Metadata
  quoted_message : String → String → Metadata

pub record OutgoingMessage : Type 0 where
  pub session_id : String
  pub wa_message_id : Option String
  pub chat_id : String
  pub from : String
  pub to : String
  pub body : Option String
  pub kind : String
  pub timestamp : Option ℕ
  pub status : MessageStatus
  pub metadata : Metadata

pub data SendError : Type 0 where
  blocked_by_plugin session_inactive content_required mimetype_required : SendError
  bad_request engine_error write_error : SendError

-- A response with the message's id and time, an error before anything is stored, or one behind it.
pub data SendReply : Type 0 where
  responded : String → ℕ → SendReply
  refused failed : SendError → SendReply

-- `value || fallback` of a text that may be left out.
abbrev pub or_else_filled : Option String → Option String → Option String
or_else_filled none fallback = fallback
or_else_filled (some s) fallback = if is_empty s then fallback else some s

abbrev pub media_kind : MediaKind → String
media_kind image = "image"
media_kind video = "video"
media_kind audio = "audio"
media_kind document = "document"
media_kind sticker = "sticker"

-- The body that is stored with media.
abbrev pub media_body : MediaKind → SendMediaMessageDto → Option String
media_body image dto = or_else_filled dto.caption (some "")
media_body video dto = or_else_filled dto.caption (some "")
media_body audio dto = none
media_body document dto = or_else_filled dto.filename (some "")
media_body sticker dto = none

abbrev pub is_given : Option String → Bool
is_given none = false
is_given (some s) = not (is_empty s)

unfoldable pub media_error : SendMediaMessageDto → Option SendError
media_error dto =
    if not (is_given dto.url) && not (is_given dto.base64)
    then some content_required
    else if is_given dto.base64 && not (is_given dto.mimetype)
    then some mimetype_required
    else none

-- What `buildMediaInput` returns where it throws no error.
abbrev pub build_media_input : SendMediaMessageDto → MediaInput
build_media_input dto = record {
  mimetype = get_or_default (or_else_filled dto.mimetype none) "application/octet-stream";
  content = get_or_default (or_else_filled dto.url dto.base64) "";
  filename = dto.filename;
  caption = dto.caption;
}

-- What is stored of a send, and the call that it makes.
pub record Draft : Type 0 where
  pub chat_id : String
  pub body : Option String
  pub kind : String
  pub metadata : Metadata
  pub call : EngineCall

pub data SendRequest : Type 0 where
  send_media : MediaKind → SendMediaMessageDto → SendRequest
  send_location : String → String → String → Option String → Option String → SendRequest
  send_contact : String → String → String → SendRequest
  reply : String → String → String → SendRequest
  forward : String → String → String → SendRequest

abbrev pub draft_text : SendTextMessageDto → Draft
draft_text dto = record {
  chat_id = dto.chat_id;
  body = some dto.text;
  kind = "text";
  metadata = no_metadata;
  call = send_text_message dto.chat_id dto.text;
}

-- `quoted` is the body of the quoted message, empty if it is not found.
unfoldable pub draft_of : (String → String) → SendRequest → Draft
draft_of quoted (send_media kind dto) = record {
  chat_id = dto.chat_id;
  body = media_body kind dto;
  kind = media_kind kind;
  metadata = media dto.mimetype dto.filename (or_else_filled dto.base64 dto.url);
  call = send_media_message kind dto.chat_id (build_media_input dto);
}
draft_of quoted (send_location chat latitude longitude description address) = record {
  chat_id = chat;
  body = some (str_append "📍 " (get_or_default (or_else_filled description none) "Location"));
  kind = "location";
  metadata = no_metadata;
  call = send_location_message chat latitude longitude description address;
}
draft_of quoted (send_contact chat name number) = record {
  chat_id = chat;
  body = some (str_append "📇 " name);
  kind = "contact";
  metadata = no_metadata;
  call = send_contact_message chat name number;
}
draft_of quoted (reply chat quoted_id text) = record {
  chat_id = chat;
  body = some text;
  kind = "text";
  metadata = quoted_message quoted_id (quoted quoted_id);
  call = reply_to_message chat quoted_id text;
}
draft_of quoted (forward from_chat to_chat id) = record {
  chat_id = to_chat;
  body = some "[Forwarded]";
  kind = "forward";
  metadata = no_metadata;
  call = forward_message from_chat to_chat id;
}

abbrev pub request_error : SendRequest → Option SendError
request_error (send_media kind dto) = media_error dto
request_error request = none

-- `saveOutgoingMessage`; the phone of the session is the sender.
unfoldable pub save_outgoing_message : String → Option String → Draft → OutgoingMessage
save_outgoing_message session phone draft = record {
  session_id = session;
  wa_message_id = none;
  chat_id = draft.chat_id;
  from = get_or_default (or_else_filled phone none) "me";
  to = draft.chat_id;
  body = draft.body;
  kind = draft.kind;
  timestamp = none;
  status = MessageStatus.pending;
  metadata = draft.metadata;
}

abbrev pub marked_sent : String → ℕ → OutgoingMessage → OutgoingMessage
marked_sent id timestamp message = record message {
  wa_message_id = some id;
  status = MessageStatus.sent;
  timestamp = some timestamp;
}

abbrev pub marked_failed : OutgoingMessage → OutgoingMessage
marked_failed message = record message { status = MessageStatus.failed }

-- An error of the guard is the client's, but `sendText` throws it as it is.
abbrev pub to_client_facing_error : Bool → SendError
to_client_facing_error true = bad_request
to_client_facing_error false = engine_error

-- Behind the engine's call: what is answered, and what is stored.
unfoldable pub settle_send :
    Bool → Bool → EngineAnswer → OutgoingMessage → SendReply × OutgoingMessage
settle_send client_facing saved (sent_as id timestamp) message =
    if saved
    then (responded id timestamp, marked_sent id timestamp message)
    else (failed write_error, marked_failed (marked_sent id timestamp message))
settle_send client_facing saved blocked_address message =
    (failed (to_client_facing_error client_facing), marked_failed message)
settle_send client_facing saved other_error message = (failed engine_error, marked_failed message)

module _ (engine : EngineCall → EngineAnswer) (saved : Bool) where
  -- The row is stored as pending, and stored again behind the call.
  abbrev pub send_draft :
      Bool
      → String
      → String
      → Option String
      → Draft
      → List (String × OutgoingMessage)
      → SendReply × List (String × OutgoingMessage)
  send_draft client_facing row_id session phone draft rows =
      let message = save_outgoing_message session phone draft in
      let settled = settle_send client_facing saved (engine draft.call) message in
      (settled.0, insert row_id settled.1 (insert row_id message rows))

  unfoldable pub send_text :
      Option SendTextMessageDto
      → Bool
      → String
      → String
      → Option String
      → List (String × OutgoingMessage)
      → SendReply × List (String × OutgoingMessage)
  send_text none active row_id session phone rows = (refused blocked_by_plugin, rows)
  send_text (some dto) active row_id session phone rows =
      if active
      then send_draft false row_id session phone (draft_text dto) rows
      else (refused session_inactive, rows)

  abbrev pub checked_send :
      Option SendError
      → String
      → String
      → Option String
      → Draft
      → List (String × OutgoingMessage)
      → SendReply × List (String × OutgoingMessage)
  checked_send (some e) row_id session phone draft rows = (refused e, rows)
  checked_send none row_id session phone draft rows =
      send_draft true row_id session phone draft rows

  unfoldable pub send :
      (String → String)
      → SendRequest
      → Bool
      → String
      → String
      → Option String
      → List (String × OutgoingMessage)
      → SendReply × List (String × OutgoingMessage)
  send quoted request active row_id session phone rows =
      if active
      then checked_send (request_error request) row_id session phone (draft_of quoted request) rows
      else (refused session_inactive, rows)
