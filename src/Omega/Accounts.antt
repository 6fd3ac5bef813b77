-- ===== src/Omega/Accounts.antt =====
-- Plans and the users of the administration: `createPlan`, `updatePlan`, `createUser` and
-- `updateUser` of src/modules/omega/omega-admin.service.ts.
use wp_open_omega.Omega.{
  OmegaUserRole, OmegaUserStatus, OmegaPlan, OmegaUser, OmegaTables, plan_not_found,
  client_not_found, user_not_found, unique_violation, Reply, done, refused,
}
use wp_open_omega.Omega.Clients.{is_missing, changed_email}
use wp_open_omega.Common.{
  ℕ, String, Bool, true, not, ◌&&◌, Option, none, some, List, [], ◌∷◌, if◌then◌else◌, str_eq, any,
  lookup, insert, get_or_default, Text, text_eq, lower,
}

pub record CreateOmegaPlanDto : Type 0 where
  pub name : String
  pub description : Option String
  pub monthly_message_limit : ℕ
  pub whatsapp_account_limit : ℕ
  pub monthly_price : ℕ
  pub features : Option (List String)
  pub is_active : Option Bool

pub record UpdateOmegaPlanDto : Type 0 where
  pub name : Option String
  pub description : Option String
  pub monthly_message_limit : Option ℕ
  pub whatsapp_account_limit : Option ℕ
  pub monthly_price : Option ℕ
  pub features : Option (List String)
  pub is_active : Option Bool

pub record CreateOmegaUserDto : Type 0 where
  pub full_name : String
  pub email : Text
  pub password : Text
  pub role : OmegaUserRole
  pub client_id : Option String

-- Of the client's id, null is `some none`.
pub record UpdateOmegaUserDto : Type 0 where
  pub full_name : Option String
  pub email : Option Text
  pub password : Option Text
  pub role : Option OmegaUserRole
  pub status : Option OmegaUserStatus
  pub client_id : Option (Option String)

-- The unique index on the name of a plan.
abbrev pub plan_clashes : String → OmegaPlan → List (String × OmegaPlan) → Bool
plan_clashes id plan rows = any (λ row. not (str_eq row.0 id) && str_eq row.1.name plan.name) rows

-- The save of a plan, which the index may refuse.
abbrev pub save_plan : String → OmegaPlan → OmegaTables → Reply OmegaPlan × OmegaTables
save_plan id plan tables =
    if plan_clashes id plan tables.plans
    then (refused unique_violation, tables)
    else (done plan, record tables { plans = insert id plan tables.plans })

unfoldable pub create_plan :
    String → CreateOmegaPlanDto → OmegaTables → Reply OmegaPlan × OmegaTables
create_plan id dto tables =
    save_plan id
      (record {
        name = dto.name;
        description = dto.description;
        monthly_message_limit = dto.monthly_message_limit;
        whatsapp_account_limit = dto.whatsapp_account_limit;
        monthly_price = dto.monthly_price;
        features = get_or_default dto.features [];
        is_active = get_or_default dto.is_active true;
      })
      tables

abbrev pub changed_plan : UpdateOmegaPlanDto → OmegaPlan → OmegaPlan
changed_plan dto plan = record {
  name = get_or_default dto.name plan.name;
  description = elim dto.description [ none ↦ plan.description | some text ↦ some text ];
  monthly_message_limit = get_or_default dto.monthly_message_limit plan.monthly_message_limit;
  whatsapp_account_limit = get_or_default dto.whatsapp_account_limit plan.whatsapp_account_limit;
  monthly_price = get_or_default dto.monthly_price plan.monthly_price;
  features = get_or_default dto.features plan.features;
  is_active = get_or_default dto.is_active plan.is_active;
}

abbrev pub update_plan_found :
    String → UpdateOmegaPlanDto → OmegaTables → Option OmegaPlan → Reply OmegaPlan × OmegaTables
update_plan_found id dto tables none = (refused plan_not_found, tables)
update_plan_found id dto tables (some plan) = save_plan id (changed_plan dto plan) tables

unfoldable pub update_plan :
    String → UpdateOmegaPlanDto → OmegaTables → Reply OmegaPlan × OmegaTables
update_plan id dto tables = update_plan_found id dto tables (lookup id tables.plans)

-- The unique index on the email of a user.
abbrev pub user_clashes : String → OmegaUser → List (String × OmegaUser) → Bool
user_clashes id user rows =
    any (λ row. not (str_eq row.0 id) && text_eq row.1.email user.email) rows

abbrev pub save_user : String → OmegaUser → OmegaTables → Reply OmegaUser × OmegaTables
save_user id user tables =
    if user_clashes id user tables.users
    then (refused unique_violation, tables)
    else (done user, record tables { users = insert id user tables.users })

module _ (hash_password : Text → Text) where
  unfoldable pub create_user :
      String → CreateOmegaUserDto → OmegaTables → Reply OmegaUser × OmegaTables
  create_user id dto tables =
      if is_missing dto.client_id tables.clients
      then (refused client_not_found, tables)
      else save_user id
          (record {
            full_name = dto.full_name;
            email = lower dto.email;
            password_hash = hash_password dto.password;
            client_id = dto.client_id;
            role = dto.role;
            status = OmegaUserStatus.active;
            last_login_at = none;
          })
          tables

  abbrev pub changed_password : Option Text → Text → Text
  changed_password none hash = hash
  changed_password (some []) hash = hash
  changed_password (some (c ∷ s)) hash = hash_password (c ∷ s)

  abbrev pub changed_user : UpdateOmegaUserDto → OmegaUser → OmegaUser
  changed_user dto user = record {
    full_name = get_or_default dto.full_name user.full_name;
    email = changed_email dto.email user.email;
    password_hash = changed_password dto.password user.password_hash;
    client_id = get_or_default dto.client_id user.client_id;
    role = get_or_default dto.role user.role;
    status = get_or_default dto.status user.status;
    last_login_at = user.last_login_at;
  }

  abbrev pub update_user_found :
      String → UpdateOmegaUserDto → OmegaTables → Option OmegaUser → Reply OmegaUser × OmegaTables
  update_user_found id dto tables none = (refused user_not_found, tables)
  update_user_found id dto tables (some user) =
      if is_missing (get_or_default dto.client_id none) tables.clients
      then (refused client_not_found, tables)
      else save_user id (changed_user dto user) tables

  unfoldable pub update_user :
      String → UpdateOmegaUserDto → OmegaTables → Reply OmegaUser × OmegaTables
  update_user id dto tables = update_user_found id dto tables (lookup id tables.users)
