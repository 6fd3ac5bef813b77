-- ===== src/Omega/Tests.antt =====
-- Runs of the administration at concrete tables.
use wp_open_omega.Omega.{
  OmegaUserRole, support_admin, OmegaClientStatus, OmegaSessionStatus, connected,
  OmegaWhatsappSession, OmegaTables,
}
use wp_open_omega.Omega.Sessions.{AssignOmegaSessionDto, assign_session}
use wp_open_omega.Omega.Clients.{CreateOmegaClientDto, UpdateOmegaClientDto}
use wp_open_omega.Omega.Accounts.{CreateOmegaPlanDto, CreateOmegaUserDto}
use wp_open_omega.Omega.Sync.{OpenwaSessionSnapshot, sync_sessions}
use wp_open_omega.Omega.Requests.{
  OmegaRequest, post_client, put_client, post_plan, post_user, assign, flag, sync, run,
}
use wp_open_omega.Omega.Snapshots.{IsSynced, sync_sessions-IsSynced}
use wp_open_omega.Omega.Limits.{StaysWithin, assign_session-StaysWithin}
use wp_open_omega.Omega.Linked.{IsLinked}
use wp_open_omega.Omega.Run.{run-IsLinked}
use wp_open_omega.Common.{
  String, refl, Bool, true, false, Option, none, some, List, [], ◌∷◌, lookup, has_key, IsKeyed,
  Text, units,
}

abbrev no_tables : OmegaTables
no_tables = record { clients = []; plans = []; subscriptions = []; users = []; sessions = [] }

abbrev starter : CreateOmegaPlanDto
starter = record {
  name = "Starter";
  description = none;
  monthly_message_limit = 1000;
  whatsapp_account_limit = 1;
  monthly_price = 2900;
  features = none;
  is_active = none;
}

abbrev acme : CreateOmegaClientDto
acme = record {
  company_name = "Acme";
  owner_name = "Ann";
  email = units "Ann@acme.test";
  phone = "1";
  status = none;
  plan_id = some "p1";
  monthly_message_limit = 1000;
  whatsapp_account_limit = 1;
}

abbrev larger : UpdateOmegaClientDto
larger = record {
  company_name = none;
  owner_name = none;
  email = none;
  phone = none;
  status = some OmegaClientStatus.suspended;
  plan_id = some none;
  monthly_message_limit = none;
  whatsapp_account_limit = some 3;
}

abbrev agent : CreateOmegaUserDto
agent = record {
  full_name = "Al";
  email = units "al@acme.test";
  password = units "secret";
  role = OmegaUserRole.client_agent;
  client_id = some "c1";
}

abbrev snapshot : String → OmegaSessionStatus → OpenwaSessionSnapshot
snapshot id status = record {
  openwa_session_id = id;
  openwa_session_name = none;
  phone_number = none;
  status = status;
  last_seen_at = none;
}

abbrev to_acme : Bool → AssignOmegaSessionDto
to_acme override = record { client_id = some "c1"; override_limit = override }

abbrev new_id : String → String
new_id id = id

abbrev same_text : Text → Text
same_text s = s

abbrev requests : List OmegaRequest
requests =
    post_plan "p1" starter
    ∷ post_client "c1" 10 acme
    ∷ post_user "u1" agent
    ∷ sync 20 (snapshot "s1" connected ∷ snapshot "s2" connected ∷ [])
    ∷ assign "s1" (to_acme false) support_admin
    ∷ assign "s2" (to_acme true) support_admin
    ∷ flag "s1" true
    ∷ put_client "c1" 30 larger
    ∷ sync 40 (snapshot "s2" connected ∷ [])
    ∷ []

run-IsLinked_example : IsLinked (run same_text new_id requests no_tables)
unfolding lookup IsKeyed
run-IsLinked_example =
    run-IsLinked same_text new_id requests no_tables ((λ id client e. cc e), tt, tt, tt)

-- The row of a session after the run: its client is kept, and it waits for a reconnection.
first_session : Option OmegaWhatsappSession
first_session = lookup "s1" (run same_text new_id requests no_tables).sessions

abbrev session_of_acme : String → OmegaWhatsappSession
session_of_acme id = record {
  id = id;
  openwa_session_name = none;
  client_id = some "c1";
  phone_number = none;
  status = connected;
  assigned_to_client = true;
  replacement_requested = false;
  last_seen_at = none;
  last_sync_at = none;
}

abbrev free_session : String → OmegaWhatsappSession
free_session id = record (session_of_acme id) { client_id = none; assigned_to_client = false }

abbrev two_sessions : List (String × OmegaWhatsappSession)
two_sessions = ("s1", session_of_acme "s1") ∷ ("s2", free_session "s2") ∷ []

sync_sessions-IsSynced_example :
    IsSynced new_id 50 (snapshot "s2" connected ∷ snapshot "s3" connected ∷ []) two_sessions (
      sync_sessions new_id 50 (snapshot "s2" connected ∷ snapshot "s3" connected ∷ []) two_sessions)
unfolding IsKeyed has_key lookup
sync_sessions-IsSynced_example =
    sync_sessions-IsSynced new_id 50 (snapshot "s2" connected ∷ snapshot "s3" connected ∷ [])
      two_sessions (refl, (refl, tt)) (refl, (refl, tt))

abbrev assigned_tables : OmegaTables
assigned_tables = record (run same_text new_id requests no_tables) { sessions = two_sessions }

-- A second session within the limit of three.
assign_session-StaysWithin_example :
    StaysWithin assigned_tables
      (assign_session "s2" (to_acme false) support_admin assigned_tables).1
unfolding IsKeyed has_key lookup
assign_session-StaysWithin_example =
    assign_session-StaysWithin "s2" (to_acme false) support_admin assigned_tables (refl, (refl, tt))
      refl
