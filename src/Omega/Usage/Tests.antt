-- ===== src/Omega/Usage/Tests.antt =====
-- Runs of the usage reports.
use wp_open_omega.Message.{MessageStatus}
use wp_open_omega.Omega.{OmegaClientStatus, connected, OmegaWhatsappSession, OmegaClient}
use wp_open_omega.Omega.Usage.{SentMessage, outgoing, Calendar, build_usage_overview}
use wp_open_omega.Omega.ClientUsage.{build_client_usage, compose_client_usage, count_messages}
use wp_open_omega.Omega.Usage.Reports.{summary, build_usage_overview-build_client_usage}
use wp_open_omega.Common.{
  ℕ, String, ◌≡◌, refl, true, false, none, some, List, [], ◌∷◌, map, lookup, insert, has_key,
  IsKeyed, units,
}

abbrev session_of_acme : String → OmegaWhatsappSession
session_of_acme id = record {
  id = id;
  openwa_session_name = none;
  client_id = some "c1";
  phone_number = none;
  status = connected;
  assigned_to_client = true;
  replacement_requested = false;
  last_seen_at = none;
  last_sync_at = none;
}

abbrev sessions : List (String × OmegaWhatsappSession)
sessions =
    ("s1", session_of_acme "s1") ∷ ("s2", record (session_of_acme "s2") { client_id = none }) ∷ []

abbrev acme : OmegaClient
acme = record {
  company_name = "Acme";
  owner_name = "Ann";
  email = units "ann@acme.test";
  phone = "1";
  status = OmegaClientStatus.active;
  plan_id = none;
  monthly_message_limit = 1000;
  whatsapp_account_limit = 1;
}

abbrev clients : List (String × OmegaClient)
clients = ("c1", acme) ∷ []

abbrev message : String → ℕ → SentMessage
message session at = record {
  session_id = session;
  direction = outgoing;
  status = MessageStatus.sent;
  created_at = at;
}

-- Two months, of days 100 to 199 and 200 to 299; today is from 250 on.
abbrev month_of : ℕ → String
month_of at = "m2"

abbrev calendar : Calendar
calendar = record {
  day_start = 250;
  month_start = 200;
  six_months_ago = 100;
  months = "m1" ∷ "m2" ∷ [];
  month_key = month_of;
}

-- One of the month before, one of this month, one of today and one of another session.
abbrev messages : List SentMessage
messages = message "s1" 150 ∷ message "s1" 210 ∷ message "s1" 260 ∷ message "s2" 270 ∷ []

build_usage_overview-build_client_usage_example :
    (build_usage_overview calendar clients sessions messages).per_client
    ≡ map
        (λ client. summary client (build_client_usage calendar client.0 client.1 sessions messages))
        clients
unfolding IsKeyed has_key lookup
build_usage_overview-build_client_usage_example =
    build_usage_overview-build_client_usage calendar sessions messages clients (refl, tt)
      (refl, (refl, tt))

-- Two messages of this month, and three in the column of that name.
three_of_two :
    ((build_client_usage calendar "c1" acme sessions messages).messages_this_month ≡ 2)
    × (map
          (λ row. row.0.messages_this_month)
          (build_client_usage calendar "c1" acme sessions messages).by_session
        ≡ 3 ∷ [])
unfolding build_client_usage compose_client_usage count_messages lookup insert
three_of_two = (refl, refl)
