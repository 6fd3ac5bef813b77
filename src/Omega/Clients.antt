-- ===== src/Omega/Clients.antt =====
-- Client companies with their subscriptions, plans and users: `createClient`, `updateClient`,
-- `createPlan`, `updatePlan`, `createUser`, `updateUser` and their private helpers of
-- src/modules/omega/omega-admin.service.ts. The id that the database gives a new row is an argument,
-- a write that breaks a unique index is refused, and the hash of a password is a parameter.
use wp_open_omega.Omega.{
  OmegaClientStatus, OmegaClient, OmegaSubscription, OmegaSubscriptionStatus, OmegaTables,
  client_not_found, plan_not_found, unique_violation, Reply, done, refused, named,
}
use wp_open_omega.Common.{
  ℕ, String, Bool, false, not, ◌&&◌, ◌||◌, Option, none, some, List, [], ◌∷◌, if◌then◌else◌, str_eq,
  any, lookup, insert, has_key, get_or_default, Text, text_eq, lower,
}

pub record CreateOmegaClientDto : Type 0 where
  pub company_name : String
  pub owner_name : String
  pub email : Text
  pub phone : String
  pub status : Option OmegaClientStatus
  pub plan_id : Option String
  pub monthly_message_limit : ℕ
  pub whatsapp_account_limit : ℕ

-- An absent field is none; of the plan's id, null is `some none`.
pub record UpdateOmegaClientDto : Type 0 where
  pub company_name : Option String
  pub owner_name : Option String
  pub email : Option Text
  pub phone : Option String
  pub status : Option OmegaClientStatus
  pub plan_id : Option (Option String)
  pub monthly_message_limit : Option ℕ
  pub whatsapp_account_limit : Option ℕ

-- `planId && !planExists`, `clientId && !clientExists`
abbrev pub is_missing {ℓ} : {V : Type ℓ} → Option String → List (String × V) → Bool
is_missing reference rows = elim (named reference) [
  | none ↦ false
  | some id ↦ not (has_key id rows)
]

abbrev pub upserted : ℕ → Option String → ℕ → ℕ → Option OmegaSubscription → OmegaSubscription
upserted now plan_id messages accounts none = record {
  plan_id = get_or_default plan_id "";
  status = OmegaSubscriptionStatus.active;
  monthly_message_limit = messages;
  whatsapp_account_limit = accounts;
  starts_at = some now;
  ends_at = none;
}
upserted now plan_id messages accounts (some current) = record current {
  plan_id = get_or_default plan_id current.plan_id;
  monthly_message_limit = messages;
  whatsapp_account_limit = accounts;
}

abbrev pub upsert_subscription :
    ℕ → String → OmegaClient → List (String × OmegaSubscription) → List (String × OmegaSubscription)
upsert_subscription now client_id client rows =
    insert client_id
      (upserted now client.plan_id client.monthly_message_limit client.whatsapp_account_limit
        (lookup client_id rows))
      rows

-- The save of a client with its subscription behind it.
abbrev pub save_client : ℕ → String → OmegaClient → OmegaTables → OmegaTables
save_client now id client tables = record tables {
  clients = insert id client tables.clients;
  subscriptions = upsert_subscription now id client tables.subscriptions;
}

-- The unique indexes on companyName and email.
abbrev pub client_clashes : String → OmegaClient → List (String × OmegaClient) → Bool
client_clashes id client rows =
    any
      (λ row.
        not (str_eq row.0 id)
        && (str_eq row.1.company_name client.company_name || text_eq row.1.email client.email))
      rows

abbrev pub created_client : CreateOmegaClientDto → OmegaClient
created_client dto = record {
  company_name = dto.company_name;
  owner_name = dto.owner_name;
  email = lower dto.email;
  phone = dto.phone;
  status = get_or_default dto.status OmegaClientStatus.active;
  plan_id = dto.plan_id;
  monthly_message_limit = dto.monthly_message_limit;
  whatsapp_account_limit = dto.whatsapp_account_limit;
}

unfoldable pub create_client :
    String → ℕ → CreateOmegaClientDto → OmegaTables → Reply OmegaClient × OmegaTables
create_client id now dto tables =
    if is_missing dto.plan_id tables.plans
    then (refused plan_not_found, tables)
    else if client_clashes id (created_client dto) tables.clients
    then (refused unique_violation, tables)
    else (done (created_client dto), save_client now id (created_client dto) tables)

-- `dto.email ? dto.email.toLowerCase() : client.email`
abbrev pub changed_email : Option Text → Text → Text
changed_email none email = email
changed_email (some []) email = email
changed_email (some (c ∷ s)) email = lower (c ∷ s)

abbrev pub changed_client : UpdateOmegaClientDto → OmegaClient → OmegaClient
changed_client dto client = record {
  company_name = get_or_default dto.company_name client.company_name;
  owner_name = get_or_default dto.owner_name client.owner_name;
  email = changed_email dto.email client.email;
  phone = get_or_default dto.phone client.phone;
  status = get_or_default dto.status client.status;
  plan_id = get_or_default dto.plan_id client.plan_id;
  monthly_message_limit = get_or_default dto.monthly_message_limit client.monthly_message_limit;
  whatsapp_account_limit = get_or_default dto.whatsapp_account_limit client.whatsapp_account_limit;
}

abbrev pub update_client_found :
    String
    → ℕ
    → UpdateOmegaClientDto
    → OmegaTables
    → Option OmegaClient
    → Reply OmegaClient × OmegaTables
update_client_found id now dto tables none = (refused client_not_found, tables)
update_client_found id now dto tables (some client) =
    if is_missing (get_or_default dto.plan_id none) tables.plans
    then (refused plan_not_found, tables)
    else if client_clashes id (changed_client dto client) tables.clients
    then (refused unique_violation, tables)
    else (done (changed_client dto client), save_client now id (changed_client dto client) tables)

unfoldable pub update_client :
    String → ℕ → UpdateOmegaClientDto → OmegaTables → Reply OmegaClient × OmegaTables
update_client id now dto tables = update_client_found id now dto tables (lookup id tables.clients)
