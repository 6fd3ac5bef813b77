-- ===== src/Webhook/Tests.antt =====
-- Runs on webhooks, and the theorems at concrete inputs.
use wp_open_omega.Webhook.{Webhook}
use wp_open_omega.Webhook.Headers.{
  is_reserved, sanitize_custom_headers, build_headers, IsOwn, has_name, build_headers-IsOwn,
}
use wp_open_omega.Webhook.Delivery.{
  Answer, response, deliver_from, deliver_webhook, succeeds, deliver_webhook-attempts,
}
use wp_open_omega.Webhook.Urls.{
  Request, create_request, delete_request, IsChecked, handle_all, handle_all-IsChecked,
}
use wp_open_omega.Common.{
  if◌then◌else◌, ℕ, ◌+◌, ◌≤◌, ◌==◌, max, String, ◌≡◌, refl, Bool, true, false, Option, none, some,
  List, [], ◌∷◌, All, length, Text, units, strip_prefix, str_eq,
}

abbrev custom : List (Text × Text)
custom = (units "X-OPENWA-Signature", units "forged") ∷ (units "x-team", units "a") ∷ []

abbrev system : List (Text × Text)
system =
    (units "Content-Type", units "application/json") ∷ (units "X-OpenWA-Event", units "test") ∷ []

sanitized : sanitize_custom_headers custom ≡ (units "x-team", units "a") ∷ []
unfolding sanitize_custom_headers is_reserved strip_prefix
sanitized = refl

build_headers-IsOwn_example :
    All (IsOwn system) (build_headers custom system)
    × All (λ header. has_name header.0 (build_headers custom system) ≡ true) system
build_headers-IsOwn_example = build_headers-IsOwn custom system

-- The receiver answers with 503 once, then with 200.
abbrev answers : ℕ → Answer
answers attempt = response (if attempt == 1 then 503 else 200) false

abbrev always_safe : ℕ → Bool
always_safe attempt = true

second_try : (deliver_webhook 3 5000 true always_safe answers).waits ≡ 5000 ∷ []
unfolding deliver_webhook deliver_from
second_try = refl

deliver_webhook-attempts_example :
    ((deliver_webhook 3 5000 true always_safe answers).success
      ≡ succeeds 3 5000 true always_safe answers (max 1 3) 1)
    × (1 ≤ length (deliver_webhook 3 5000 true always_safe answers).attempts)
    × (length (deliver_webhook 3 5000 true always_safe answers).attempts ≤ max 1 3)
    × (length (deliver_webhook 3 5000 true always_safe answers).waits + 1
        ≡ length (deliver_webhook 3 5000 true always_safe answers).attempts)
deliver_webhook-attempts_example = deliver_webhook-attempts 3 5000 true always_safe answers

abbrev hook : String → Webhook
hook event = record {
  session_id = "s1";
  url = "https://example.org";
  events = event ∷ [];
  secret = none;
  headers = [];
  active = true;
  retry_count = 3;
}

abbrev table : List (String × Webhook)
table = ("w1", hook "*") ∷ ("w2", hook "message.ack") ∷ ("w3", hook "message.sent") ∷ []

abbrev pass : String → ℕ → Option ℕ
pass id payload = some payload

abbrev refuse : String × Webhook → ℕ → Bool
refuse row payload = str_eq row.0 "w3"

abbrev internal : String → Bool
internal url = str_eq url "http://localhost"

abbrev requests : List Request
requests =
    create_request "w9" "s1" (record {
      url = "http://localhost";
      events = none;
      secret = none;
      headers = none;
      retry_count = none;
    })
    ∷ delete_request "w1"
    ∷ []

handle_all-IsChecked_example : All (IsChecked internal) (handle_all internal requests table)
handle_all-IsChecked_example =
    handle_all-IsChecked internal requests table (refl, (refl, (refl, tt)))
