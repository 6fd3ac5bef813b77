-- ===== src/Omega/ClientUsage.antt =====
-- The usage of one client: `buildClientUsage` and `composeClientUsage` of
-- src/modules/omega/omega-usage.service.ts.
use wp_open_omega.Omega.{OmegaClient, OmegaSessionStatus, OmegaWhatsappSession}
use wp_open_omega.Omega.Sessions.{belongs_to}
use wp_open_omega.Common.{
  ℕ, String, Bool, true, ◌&&◌, List, [], ◌∷◌, map, str_eq, any, keep, count_if, lookup,
  get_or_default,
}
use wp_open_omega.Omega.Usage.{
  SentMessage, Calendar, MonthUsage, SessionUsage, is_eligible, bump, bump_since, zeros, trend_of,
}

pub record ClientUsageReport : Type 0 where
  pub client_id : String
  pub company_name : String
  pub messages_today : ℕ
  pub messages_this_month : ℕ
  pub monthly_message_limit : ℕ
  pub whatsapp_account_limit : ℕ
  pub session_count : ℕ
  pub trend : List MonthUsage
  pub by_session : List (SessionUsage × OmegaSessionStatus)

-- The loop of `composeClientUsage`.
pub record Counts : Type 0 where
  pub today : ℕ
  pub month : ℕ
  pub trend : List (String × ℕ)
  pub by_session : List (String × ℕ)

abbrev pub no_counts : List String → Counts
no_counts months = record { today = 0; month = 0; trend = zeros months; by_session = [] }

abbrev pub count_message : Calendar → SentMessage → Counts → Counts
count_message calendar message c = record {
  today = bump_since calendar.day_start message c.today;
  month = bump_since calendar.month_start message c.month;
  trend = bump (calendar.month_key message.created_at) c.trend;
  by_session = bump message.session_id c.by_session;
}

unfoldable pub count_messages : Calendar → List SentMessage → Counts → Counts
count_messages calendar [] c = c
count_messages calendar (message ∷ messages) c =
    count_messages calendar messages (count_message calendar message c)

abbrev pub counted_row :
    List (String × ℕ) → String × OmegaWhatsappSession → SessionUsage × OmegaSessionStatus
counted_row counts (key, row) = (
  record {
    session_id = row.id;
    openwa_session_id = key;
    openwa_session_name = row.openwa_session_name;
    messages_this_month = get_or_default (lookup key counts) 0;
  },
  row.status,
)

unfoldable pub compose_client_usage :
    Calendar
    → String
    → OmegaClient
    → List (String × OmegaWhatsappSession)
    → List SentMessage
    → ClientUsageReport
compose_client_usage calendar id client sessions messages =
    let c = count_messages calendar messages (no_counts calendar.months) in
    record {
      client_id = id;
      company_name = client.company_name;
      messages_today = c.today;
      messages_this_month = c.month;
      monthly_message_limit = client.monthly_message_limit;
      whatsapp_account_limit = client.whatsapp_account_limit;
      session_count = count_if (λ row. true) sessions;
      trend = trend_of calendar.months c.trend;
      by_session = map (counted_row c.by_session) sessions;
    }

abbrev pub client_sessions :
    String → List (String × OmegaWhatsappSession) → List (String × OmegaWhatsappSession)
client_sessions id sessions = keep (λ row. belongs_to id row.1) sessions

-- `message.sessionId IN (:...sessionIds)`; of no sessions, no message is asked for.
abbrev pub is_among : List (String × OmegaWhatsappSession) → SentMessage → Bool
is_among sessions message = any (λ row. str_eq message.session_id row.0) sessions

unfoldable pub build_client_usage :
    Calendar
    → String
    → OmegaClient
    → List (String × OmegaWhatsappSession)
    → List SentMessage
    → ClientUsageReport
build_client_usage calendar id client sessions table =
    let own = client_sessions id sessions in
    compose_client_usage calendar id client own
      (keep (λ message. is_eligible calendar message && is_among own message) table)
