-- ===== src/Batch/Content.antt =====
-- The content of a bulk message: `applyVariables` and `sendMessage` of
-- src/modules/message/bulk-message.service.ts. A text is the list of its code units.
use Prim.Native.Char.{code}
use wp_open_omega.Common.{
  ℕ, String, Bool, ◌&&◌, ◌||◌, true, false, Option, none, some, List, [], ◌∷◌, ◌++◌, leb, ◌==◌,
  if◌then◌else◌, str_eq, get_or_default, Text, text_eq, is_nil,
}

-- `\w`
abbrev pub is_word : ℕ → Bool
is_word c =
    (leb b'a' c && leb c b'z')
    || (leb b'A' c && leb c b'Z')
    || (leb b'0' c && leb c b'9')
    || c == b'_'

-- `variables[key]` of the record's own properties.
abbrev pub variable : Text → List (Text × Text) → Option Text
variable key [] = none
variable key ((k, v) ∷ vars) = if text_eq k key then some v else variable key vars

-- `variables[key] || `{${key}}``: an empty value counts as missing.
abbrev pub substitute : List (Text × Text) → Text → Text
substitute vars key = elim (variable key vars) [
  | none ↦ b'{' ∷ (key ++ b'}' ∷ [])
  | some [] ↦ b'{' ∷ (key ++ b'}' ∷ [])
  | some (c ∷ v) ↦ c ∷ v
]

-- `str.replace(/\{(\w+)\}/g, …)`: outside of a possible placeholder, or behind its brace with the
-- word characters read so far.
pub data Mode : Type 0 where
  outside : Mode
  inside : Text → Mode

unfoldable pub scan : List (Text × Text) → Mode → Text → Text
scan vars outside [] = []
scan vars (inside key) [] = b'{' ∷ key
scan vars outside (c ∷ s) = elim (c == b'{') [
  | true ↦ scan vars (inside []) s
  | false ↦ c ∷ scan vars outside s
]
scan vars (inside key) (c ∷ s) = elim (is_word c) [
  | true ↦ scan vars (inside (key ++ c ∷ [])) s
  | false ↦ elim (c == b'}') [
    | true ↦ elim (is_nil key) [
      | true ↦ b'{' ∷ (b'}' ∷ scan vars outside s)
      | false ↦ substitute vars key ++ scan vars outside s
    ]
    | false ↦ elim (c == b'{') [
      | true ↦ b'{' ∷ (key ++ scan vars (inside []) s)
      | false ↦ b'{' ∷ (key ++ c ∷ scan vars outside s)
    ]
  ]
]

unfoldable pub replace_vars : List (Text × Text) → Text → Text
unfolding scan
replace_vars vars s = scan vars outside s

pub record Media : Type 0 where
  pub url : Option Text
  pub base64 : Option Text
  pub mimetype : Option Text
  pub filename : Option Text

pub record BulkMessageContent : Type 0 where
  pub text : Option Text
  pub caption : Option Text
  pub image : Option Media
  pub video : Option Media
  pub audio : Option Media
  pub document : Option Media

abbrev pub map_text : (Text → Text) → Option Text → Option Text
map_text f none = none
map_text f (some s) = some (f s)

abbrev pub map_media : (Text → Text) → Option Media → Option Media
map_media f none = none
map_media f (some r) = some (record {
  url = map_text f r.url;
  base64 = map_text f r.base64;
  mimetype = map_text f r.mimetype;
  filename = map_text f r.filename;
})

-- `processValue` over the declared fields of a content.
abbrev pub process_value : (Text → Text) → BulkMessageContent → BulkMessageContent
process_value f c = record {
  text = map_text f c.text;
  caption = map_text f c.caption;
  image = map_media f c.image;
  video = map_media f c.video;
  audio = map_media f c.audio;
  document = map_media f c.document;
}

unfoldable pub apply_variables :
    BulkMessageContent → Option (List (Text × Text)) → BulkMessageContent
unfolding replace_vars
apply_variables content none = content
apply_variables content (some vars) = process_value (replace_vars vars) content

-- The engine's send methods that a batch calls.
pub data EngineCall : Type 0 where
  send_text_message : Text → EngineCall
  send_image_message send_video_message : Text → Text → Option Text → EngineCall
  send_audio_message : Text → Text → EngineCall
  send_document_message : Text → Text → Option Text → Option Text → EngineCall

-- `s || d`: a missing and an empty text give the default.
abbrev pub or_text : Option Text → Text → Text
or_text none d = d
or_text (some []) d = d
or_text (some (c ∷ s)) d = c ∷ s

abbrev pub no_media : Media
no_media = record { url = none; base64 = none; mimetype = none; filename = none }

abbrev pub media_of : Option Media → Media
media_of r = get_or_default r no_media

abbrev pub media_data : Option Media → Text
media_data r = or_text (media_of r).url (or_text (media_of r).base64 [])

-- The code units of a text literal.
abbrev pub codes : String → Text
codes String.[] = []
codes (String.◌∷◌ c s) = code c ∷ codes s

-- The call for a message's type; `none` is the rejected promise of an unsupported type.
unfoldable pub send_message : String → BulkMessageContent → Option EngineCall
send_message kind c =
    if str_eq kind "text"
    then some (send_text_message (or_text c.text []))
    else if str_eq kind "image"
    then some (
        send_image_message (or_text (media_of c.image).mimetype (codes "image/jpeg"))
          (media_data c.image) c.caption)
    else if str_eq kind "video"
    then some (
        send_video_message (or_text (media_of c.video).mimetype (codes "video/mp4"))
          (media_data c.video) c.caption)
    else if str_eq kind "audio"
    then some (
        send_audio_message (or_text (media_of c.audio).mimetype (codes "audio/mpeg"))
          (media_data c.audio))
    else if str_eq kind "document"
    then some (
        send_document_message
          (or_text (media_of c.document).mimetype (codes "application/octet-stream"))
          (media_data c.document) (media_of c.document).filename c.caption)
    else none
