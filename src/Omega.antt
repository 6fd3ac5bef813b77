-- ===== src/Omega.antt =====
-- Omega, the administration of client companies: the entities of src/modules/omega/entities, whose
-- tables the services of src/modules/omega share. Sessions are kept by their unique openwaSessionId
-- and subscriptions by their unique clientId, the others by id. The dates a row was created and
-- last written at are the database's, and prices are in hundredths.
pub mod Sessions
pub mod Clients
pub mod Accounts
pub mod Sync
pub mod Requests
pub mod Limits
pub mod Linked
pub mod Placed
pub mod Run
pub mod Usage
pub mod ClientUsage
pub mod Login
pub mod Guards
mod Tests
pub mod Snapshots
use wp_open_omega.Common.{
  ℕ, String, Bool, false, Option, none, some, List, is_empty, Text, if◌then◌else◌,
}

pub data OmegaUserRole : Type 0 where
  super_admin support_admin client_admin client_agent : OmegaUserRole

pub data OmegaUserStatus : Type 0 where
  active invited suspended : OmegaUserStatus

pub data OmegaClientStatus : Type 0 where
  active suspended : OmegaClientStatus

pub data OmegaSessionStatus : Type 0 where
  connected disconnected needs_reconnect starting qr_required : OmegaSessionStatus

pub data OmegaSubscriptionStatus : Type 0 where
  active trial past_due canceled : OmegaSubscriptionStatus

pub record OmegaWhatsappSession : Type 0 where
  pub id : String
  pub openwa_session_name : Option String
  pub client_id : Option String
  pub phone_number : Option String
  pub status : OmegaSessionStatus
  pub assigned_to_client : Bool
  pub replacement_requested : Bool
  pub last_seen_at : Option ℕ
  pub last_sync_at : Option ℕ

pub record OmegaClient : Type 0 where
  pub company_name : String
  pub owner_name : String
  pub email : Text
  pub phone : String
  pub status : OmegaClientStatus
  pub plan_id : Option String
  pub monthly_message_limit : ℕ
  pub whatsapp_account_limit : ℕ

pub record OmegaSubscription : Type 0 where
  pub plan_id : String
  pub status : OmegaSubscriptionStatus
  pub monthly_message_limit : ℕ
  pub whatsapp_account_limit : ℕ
  pub starts_at : Option ℕ
  pub ends_at : Option ℕ

pub record OmegaPlan : Type 0 where
  pub name : String
  pub description : Option String
  pub monthly_message_limit : ℕ
  pub whatsapp_account_limit : ℕ
  pub monthly_price : ℕ
  pub features : List String
  pub is_active : Bool

pub record OmegaUser : Type 0 where
  pub full_name : String
  pub email : Text
  pub password_hash : Text
  pub client_id : Option String
  pub role : OmegaUserRole
  pub status : OmegaUserStatus
  pub last_login_at : Option ℕ

pub record OmegaTables : Type 0 where
  pub clients : List (String × OmegaClient)
  pub plans : List (String × OmegaPlan)
  pub subscriptions : List (String × OmegaSubscription)
  pub users : List (String × OmegaUser)
  pub sessions : List (String × OmegaWhatsappSession)

-- The exceptions that the services throw.
pub data OmegaError : Type 0 where
  client_not_found plan_not_found session_not_found user_not_found : OmegaError
  client_id_required override_forbidden limit_reached unique_violation : OmegaError

pub data Reply {ℓ} (A : Type ℓ) : Type ℓ where
  done : A → Reply A
  refused : OmegaError → Reply A

-- `clientId ? … : …`: null and the empty text count as none.
abbrev pub named : Option String → Option String
named none = none
named (some s) = if is_empty s then none else some s
