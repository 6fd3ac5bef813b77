-- ===== src/Omega/Usage.antt =====
-- The usage that Omega reports: src/modules/omega/omega-usage.service.ts. What the calendar gives
-- is an argument: the starts of the day, of the month and of the six months, the keys of the six
-- months and the key of a date. Dates are in milliseconds, and the order of the messages, which no
-- count depends on, is the table's.
pub mod Counts
pub mod Reports
mod Tests
use wp_open_omega.Omega.{
  OmegaClient, OmegaClientStatus, OmegaSessionStatus, OmegaWhatsappSession, named,
}
use wp_open_omega.Omega.Sessions.{belongs_to, count_sessions}
use wp_open_omega.Message.{MessageStatus, same_status}
use wp_open_omega.Common.{
  ℕ, ◌+◌, String, Bool, true, false, not, ◌&&◌, Option, none, some, List, [], ◌∷◌, map, leb,
  if◌then◌else◌, str_eq, any, keep, count_if, lookup, insert, get_or_default,
}

pub data MessageDirection : Type 0 where
  incoming outgoing : MessageDirection

-- The columns of `messages` that the service reads.
pub record SentMessage : Type 0 where
  pub session_id : String
  pub direction : MessageDirection
  pub status : MessageStatus
  pub created_at : ℕ

pub record Calendar : Type 0 where
  pub day_start : ℕ
  pub month_start : ℕ
  pub six_months_ago : ℕ
  pub months : List String
  pub month_key : ℕ → String

abbrev pub is_outgoing : MessageDirection → Bool
is_outgoing incoming = false
is_outgoing outgoing = true

abbrev pub was_sent : SentMessage → Bool
was_sent message =
    is_outgoing message.direction && not (same_status message.status MessageStatus.failed)

abbrev pub since : ℕ → SentMessage → Bool
since start message = leb start message.created_at

-- The WHERE clause of both queries.
abbrev pub is_eligible : Calendar → SentMessage → Bool
is_eligible calendar message = was_sent message && since calendar.six_months_ago message

-- `map.set(key, (map.get(key) ?? 0) + 1)`
abbrev pub bump : String → List (String × ℕ) → List (String × ℕ)
bump key counts = insert key (get_or_default (lookup key counts) 0 + 1) counts

-- `if (createdAt >= start) n += 1`
abbrev pub bump_since : ℕ → SentMessage → ℕ → ℕ
bump_since start message n = if since start message then n + 1 else n

-- The entry of a client in `perClientMap`; its `bySession` is written and never read.
pub record ClientTally : Type 0 where
  pub today : ℕ
  pub month : ℕ

pub record Tally : Type 0 where
  pub today : ℕ
  pub month : ℕ
  pub monthly : List (String × ℕ)
  pub per_client : List (String × ClientTally)

pub record MonthUsage : Type 0 where
  pub month : String
  pub messages : ℕ

pub record ClientUsage : Type 0 where
  pub client_id : String
  pub company_name : String
  pub status : OmegaClientStatus
  pub messages_today : ℕ
  pub messages_this_month : ℕ
  pub monthly_message_limit : ℕ
  pub session_count : ℕ
  pub whatsapp_account_limit : ℕ

pub record SessionUsage : Type 0 where
  pub session_id : String
  pub openwa_session_id : String
  pub openwa_session_name : Option String
  pub messages_this_month : ℕ

pub record UsageOverview : Type 0 where
  pub current_month : String
  pub messages_today : ℕ
  pub messages_this_month : ℕ
  pub trend : List MonthUsage
  pub per_client : List ClientUsage
  pub by_session : List SessionUsage

-- `sessionsByOpenwaId.get(message.sessionId)?.clientId`
abbrev pub client_of : List (String × OmegaWhatsappSession) → SentMessage → Option String
client_of sessions message = elim (lookup message.session_id sessions) [
  | none ↦ none
  | some row ↦ named row.client_id
]

abbrev pub entry_of : String → List (String × ClientTally) → ClientTally
entry_of client entries = get_or_default (lookup client entries) (record { today = 0; month = 0 })

abbrev pub count_client :
    Calendar
    → SentMessage
    → Option String
    → List (String × ClientTally)
    → List (String × ClientTally)
count_client calendar message none entries = entries
count_client calendar message (some client) entries =
    insert client
      (record {
        today = bump_since calendar.day_start message (entry_of client entries).today;
        month = bump_since calendar.month_start message (entry_of client entries).month;
      })
      entries

-- The loop of `composeUsage`, by its body.
abbrev pub tally_message :
    Calendar → List (String × OmegaWhatsappSession) → SentMessage → Tally → Tally
tally_message calendar sessions message t = record {
  today = bump_since calendar.day_start message t.today;
  month = bump_since calendar.month_start message t.month;
  monthly = bump (calendar.month_key message.created_at) t.monthly;
  per_client = count_client calendar message (client_of sessions message) t.per_client;
}

unfoldable pub tally :
    Calendar → List (String × OmegaWhatsappSession) → List SentMessage → Tally → Tally
tally calendar sessions [] t = t
tally calendar sessions (message ∷ messages) t =
    tally calendar sessions messages (tally_message calendar sessions message t)

abbrev pub zeros : List String → List (String × ℕ)
zeros [] = []
zeros (month ∷ months) = (month, 0) ∷ zeros months

abbrev pub no_tally : List String → Tally
no_tally months = record { today = 0; month = 0; monthly = zeros months; per_client = [] }

abbrev pub trend_of : List String → List (String × ℕ) → List MonthUsage
trend_of months counts =
    map (λ month. record { month = month; messages = get_or_default (lookup month counts) 0 })
      months

abbrev pub client_row :
    List (String × OmegaWhatsappSession) → Tally → String × OmegaClient → ClientUsage
client_row sessions t (id, client) = record {
  client_id = id;
  company_name = client.company_name;
  status = client.status;
  messages_today = (entry_of id t.per_client).today;
  messages_this_month = (entry_of id t.per_client).month;
  monthly_message_limit = client.monthly_message_limit;
  session_count = count_sessions id sessions;
  whatsapp_account_limit = client.whatsapp_account_limit;
}

abbrev pub session_row : Calendar → List SentMessage → String × OmegaWhatsappSession → SessionUsage
session_row calendar messages (key, row) = record {
  session_id = row.id;
  openwa_session_id = key;
  openwa_session_name = row.openwa_session_name;
  messages_this_month =
      count_if
        (λ message.
          str_eq message.session_id key && since calendar.month_start message && was_sent message)
        messages;
}

unfoldable pub compose_usage :
    Calendar
    → List (String × OmegaClient)
    → List (String × OmegaWhatsappSession)
    → List SentMessage
    → UsageOverview
compose_usage calendar clients sessions messages =
    let t = tally calendar sessions messages (no_tally calendar.months) in
    record {
      current_month = calendar.month_key calendar.month_start;
      messages_today = t.today;
      messages_this_month = t.month;
      trend = trend_of calendar.months t.monthly;
      per_client = map (client_row sessions t) clients;
      by_session = map (session_row calendar messages) sessions;
    }

unfoldable pub build_usage_overview :
    Calendar
    → List (String × OmegaClient)
    → List (String × OmegaWhatsappSession)
    → List SentMessage
    → UsageOverview
build_usage_overview calendar clients sessions table =
    compose_usage calendar clients sessions (keep (is_eligible calendar) table)
