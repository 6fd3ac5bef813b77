-- ===== src/Webhook/Dispatch.antt =====
-- Dispatch of an event to the webhooks of a session: `dispatch` of
-- src/modules/webhook/webhook.service.ts. The plugins' hook, the queue and the delivery are
-- parameters; the hooks that only report an outcome are the actions of the trace.
use wp_open_omega.Webhook.{Webhook}
use wp_open_omega.Common.{
  String, ◌≡◌, Bool, true, ◌&&◌, ◌||◌, Option, none, some, List, [], ◌∷◌, if◌then◌else◌, any, keep,
  str_eq, ◌⊎◌,
}

pub data Action : Type 0 where
  cancelled_by_plugin queued queue_failed delivered delivery_failed : Action

-- `find({ where: { sessionId, active: true } })`
abbrev pub is_candidate : String → String × Webhook → Bool
is_candidate session_id row = str_eq row.1.session_id session_id && row.1.active

abbrev pub is_subscribed : String → String × Webhook → Bool
is_subscribed event row = any (str_eq event) row.1.events || any (str_eq "*") row.1.events

unfoldable pub matching : String → String → List (String × Webhook) → List (String × Webhook)
matching session_id event rows = keep (is_subscribed event) (keep (is_candidate session_id) rows)

abbrev pub OneOf : String → List String → Type 0
OneOf e [] = ⊥
OneOf e (x ∷ xs) = (e ≡ x) ⊎ OneOf e xs

-- A webhook that is active, belongs to the session and is subscribed to the event or to all.
abbrev pub Wants : String → String → Webhook → Type 0
Wants session_id event webhook =
    (webhook.session_id ≡ session_id)
    × (webhook.active ≡ true)
    × (OneOf event webhook.events ⊎ OneOf "*" webhook.events)

-- One outcome for each webhook that wants the event, in the order of the table, and no other.
abbrev pub Served : String → String → List (String × Webhook) → List (String × Action) → Type 0
Served session_id event [] sent = sent ≡ []
Served session_id event (row ∷ rows) sent =
    (Wants session_id event row.1
      × ((action : Action) × (rest : List (String × Action)) × (sent ≡ (row.0, action) ∷ rest)
          × Served session_id event rows rest))
    ⊎ ((Wants session_id event row.1 → ⊥) × Served session_id event rows sent)

abbrev chosen : String → String → String × Webhook → Bool
chosen session_id event row = is_candidate session_id row && is_subscribed event row

module _ {P : Type 0} (payload : P) (before : String → P → Option P) (queue_enabled : Bool)
    (add_to_queue : String × Webhook → P → Bool) (deliver : String × Webhook → P → Bool) where
  -- What becomes of one webhook; a failure is caught and reported.
  abbrev pub send_to : String × Webhook → Option P → Action
  send_to row none = cancelled_by_plugin
  send_to row (some final) =
      if queue_enabled
      then (if add_to_queue row final then queued else queue_failed)
      else if deliver row final
      then delivered
      else delivery_failed

  abbrev pub dispatch_to : List (String × Webhook) → List (String × Action)
  dispatch_to [] = []
  dispatch_to (row ∷ rows) = (row.0, send_to row (before row.0 payload)) ∷ dispatch_to rows

  -- `none` is a failed lookup, which is logged.
  unfoldable pub dispatch :
      String → String → Option (List (String × Webhook)) → List (String × Action)
  dispatch session_id event none = []
  dispatch session_id event (some rows) = dispatch_to (matching session_id event rows)
