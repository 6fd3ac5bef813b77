-- ===== src/Message/SendTests.antt =====
-- Runs of single sends and of pages.
use wp_open_omega.Message.Send.{
  SendTextMessageDto, SendMediaMessageDto, image, EngineCall, EngineAnswer, sent_as,
  OutgoingMessage, content_required, refused, SendRequest, send_media, reply, draft_of, media_error,
  save_outgoing_message, send,
}
use wp_open_omega.Message.History.{
  finite, IsLimit, IsOffset, is_asked, get_messages, get_messages-bounds,
}
use wp_open_omega.Common.{
  ℕ, ◌+◌, ltb, if◌then◌else◌, get_elem?, String, ◌≡◌, refl, true, none, some, List, [], ◌∷◌, pos,
  keep, count_if,
}

abbrev accept : EngineCall → EngineAnswer
accept call = sent_as "wa1" 1000

abbrev body_of : String → String
body_of id = "earlier"

abbrev answer_message : SendRequest
answer_message = reply "c" "q" "hello"

abbrev stored : OutgoingMessage
stored = save_outgoing_message "s" none (draft_of body_of answer_message)

abbrev table : List (String × OutgoingMessage)
table = ("1", stored) ∷ []

abbrev without_content : SendMediaMessageDto
without_content = record {
  chat_id = "c";
  url = some "";
  base64 = none;
  mimetype = none;
  filename = none;
  caption = none;
}

no_content :
    send accept true body_of (send_media image without_content) true "2" "s" none table
    ≡ (refused content_required, table)
unfolding send media_error
no_content = refl

abbrev messages : List OutgoingMessage
messages = stored ∷ stored ∷ stored ∷ []

abbrev greeting : SendTextMessageDto
greeting = record { chat_id = "c"; text = "hello" }

get_messages-bounds_example :
    (n : ℕ) × (k : ℕ) × IsLimit (finite (pos 2)) n
    × IsOffset (finite (pos 1)) k
    × ((i : ℕ)
        → get_elem? (get_messages "s" none (finite (pos 2)) (finite (pos 1)) messages).0 i
          ≡ (if ltb i n then get_elem? (keep (is_asked "s" none) messages) (k + i) else none))
    × ((get_messages "s" none (finite (pos 2)) (finite (pos 1)) messages).1
        ≡ count_if (is_asked "s" none) messages)
get_messages-bounds_example =
    get_messages-bounds "s" none (finite (pos 2)) (finite (pos 1)) messages
