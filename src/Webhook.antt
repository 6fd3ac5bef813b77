-- ===== src/Webhook.antt =====
-- Webhooks: src/modules/webhook/webhook.service.ts and entities/webhook.entity.ts. The table is an
-- association list by id. The checks on a URL, the clock, the queue, the plugins' hook before a
-- dispatch, and what a request is answered with are parameters.
pub mod Headers
pub mod Delivery
pub mod Dispatch
pub mod Urls
pub mod Idempotency
pub mod Keys
pub mod Worker
mod Tests
mod QueueTests
use wp_open_omega.Common.{
  ℕ, String, Bool, true, false, Option, none, some, List, [], ◌∷◌, if◌then◌else◌, is_empty, lookup,
  insert, erase, get_or_default, Text,
}

pub record Webhook : Type 0 where
  pub session_id : String
  pub url : String
  pub events : List String
  pub secret : Option String
  pub headers : List (Text × Text)
  pub active : Bool
  pub retry_count : ℕ

pub record CreateWebhookDto : Type 0 where
  pub url : String
  pub events : Option (List String)
  pub secret : Option String
  pub headers : Option (List (Text × Text))
  pub retry_count : Option ℕ

pub record UpdateWebhookDto : Type 0 where
  pub url : Option String
  pub events : Option (List String)
  pub secret : Option String
  pub headers : Option (List (Text × Text))
  pub active : Option Bool
  pub retry_count : Option ℕ

pub data WebhookError : Type 0 where
  webhook_not_found bad_url : WebhookError

pub data Reply {ℓ} (A : Type ℓ) : Type ℓ where
  ok : A → Reply A
  error : WebhookError → Reply A

-- `secret || null`
abbrev some_secret : Option String → Option String
some_secret none = none
some_secret (some s) = if is_empty s then none else some s

-- `dto.secret !== undefined`: a given secret replaces the old one, an empty one removes it.
abbrev new_secret : Option String → Option String → Option String
new_secret none old = old
new_secret (some s) old = some_secret (some s)

abbrev pub created : String → CreateWebhookDto → Webhook
created session_id dto = record {
  session_id = session_id;
  url = dto.url;
  events = get_or_default dto.events ("message.received" ∷ []);
  secret = some_secret dto.secret;
  headers = get_or_default dto.headers [];
  active = true;
  retry_count = get_or_default dto.retry_count 3;
}

abbrev pub changed : UpdateWebhookDto → Webhook → Webhook
changed dto w = record {
  session_id = w.session_id;
  url = get_or_default dto.url w.url;
  events = get_or_default dto.events w.events;
  secret = new_secret dto.secret w.secret;
  headers = get_or_default dto.headers w.headers;
  active = get_or_default dto.active w.active;
  retry_count = get_or_default dto.retry_count w.retry_count;
}

-- `url_error url` is true where `validateWebhookUrl` throws.
module _ (url_error : String → Bool) where
  -- `id` is the one that the table gives the new row.
  unfoldable pub create :
      String
      → String
      → CreateWebhookDto
      → List (String × Webhook)
      → Reply Webhook × List (String × Webhook)
  create id session_id dto rows =
      if url_error dto.url
      then (error bad_url, rows)
      else (ok (created session_id dto), insert id (created session_id dto) rows)

  abbrev pub given_url_error : Option String → Bool
  given_url_error none = false
  given_url_error (some url) = url_error url

  unfoldable pub update :
      String → UpdateWebhookDto → List (String × Webhook) → Reply Webhook × List (String × Webhook)
  update id dto rows = elim (lookup id rows) [
    | none ↦ (error webhook_not_found, rows)
    | some w ↦
        if given_url_error dto.url
        then (error bad_url, rows)
        else (ok (changed dto w), insert id (changed dto w) rows)
  ]

unfoldable pub delete :
    String → List (String × Webhook) → Reply (Unit {0}) × List (String × Webhook)
delete id rows = elim (lookup id rows) [
  | none ↦ (error webhook_not_found, rows)
  | some w ↦ (ok tt, erase id rows)
]
