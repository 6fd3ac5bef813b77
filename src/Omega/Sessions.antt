-- ===== src/Omega/Sessions.antt =====
-- Assigning a session to a client company, taking it back and flagging it for replacement:
-- `assignSession`, `unassignSession` and `updateReplacementFlag` of
-- src/modules/omega/omega-admin.service.ts.
use wp_open_omega.Omega.{
  OmegaUserRole, super_admin, support_admin, client_admin, client_agent, OmegaWhatsappSession,
  OmegaClient, OmegaTables, OmegaError, session_not_found, client_not_found, client_id_required,
  override_forbidden, limit_reached, Reply, done, refused, named,
}
use wp_open_omega.Common.{
  ℕ, String, Bool, true, false, not, ◌&&◌, Option, none, some, List, leb, if◌then◌else◌, str_eq,
  count_if, lookup, insert, find_row,
}

pub record AssignOmegaSessionDto : Type 0 where
  pub client_id : Option String
  pub override_limit : Bool

-- What the routes return: the session with the name of its company.
pub record DecoratedSession : Type 0 where
  pub openwa_session_id : String
  pub session : OmegaWhatsappSession
  pub company_name : Option String

abbrev pub company_of : Option String → List (String × OmegaClient) → Option String
company_of none clients = none
company_of (some id) clients = elim (lookup id clients) [
  | none ↦ none
  | some client ↦ some client.company_name
]

unfoldable pub decorate_session :
    List (String × OmegaClient) → String → OmegaWhatsappSession → DecoratedSession
decorate_session clients key row = record {
  openwa_session_id = key;
  session = row;
  company_name = company_of (named row.client_id) clients;
}

-- `sessionRepository.save`
abbrev pub save_session : String → OmegaWhatsappSession → OmegaTables → OmegaTables
save_session key row tables = record tables { sessions = insert key row tables.sessions }

-- `findOne({ where: { id } })` of the sessions.
abbrev pub find_session :
    String → List (String × OmegaWhatsappSession) → Option (String × OmegaWhatsappSession)
find_session id rows = find_row (λ row. str_eq row.id id) rows

-- Whether a session is a client's.
abbrev pub belongs_to : String → OmegaWhatsappSession → Bool
belongs_to client row = elim row.client_id [ none ↦ false | some id ↦ str_eq id client ]

-- `find({ where: { clientId } })`, counted.
abbrev pub count_sessions : String → List (String × OmegaWhatsappSession) → ℕ
count_sessions client rows = count_if (λ row. belongs_to client row.1) rows

abbrev pub is_super_admin : OmegaUserRole → Bool
is_super_admin super_admin = true
is_super_admin support_admin = false
is_super_admin client_admin = false
is_super_admin client_agent = false

-- The check of the account limit, for a session that is not the client's yet.
abbrev pub limit_refusal :
    OmegaUserRole
    → Bool
    → String
    → OmegaClient
    → OmegaWhatsappSession
    → List (String × OmegaWhatsappSession)
    → Option OmegaError
limit_refusal actor override client_id client row rows =
    if leb client.whatsapp_account_limit (count_sessions client_id rows)
      && not (belongs_to client_id row)
    then if override && not (is_super_admin actor)
      then some override_forbidden
      else if not override
      then some limit_reached
      else none
    else none

abbrev pub assigned : String → OmegaWhatsappSession → OmegaWhatsappSession
assigned client_id row = record row {
  client_id = some client_id;
  assigned_to_client = true;
  replacement_requested = false;
}

-- The steps of the assignment, from the last to the first.
abbrev pub assign_to :
    OmegaUserRole
    → Bool
    → String
    → OmegaWhatsappSession
    → OmegaTables
    → String
    → Option OmegaClient
    → Reply DecoratedSession × OmegaTables
assign_to actor override key row tables client_id none = (refused client_not_found, tables)
assign_to actor override key row tables client_id (some client) =
    elim (limit_refusal actor override client_id client row tables.sessions) [
      | some e ↦ (refused e, tables)
      | none ↦ (
        done (decorate_session tables.clients key (assigned client_id row)),
        save_session key (assigned client_id row) tables,
      )
    ]

abbrev pub assign_named :
    OmegaUserRole
    → Bool
    → String
    → OmegaWhatsappSession
    → OmegaTables
    → Option String
    → Reply DecoratedSession × OmegaTables
assign_named actor override key row tables none = (refused client_id_required, tables)
assign_named actor override key row tables (some client_id) =
    assign_to actor override key row tables client_id (lookup client_id tables.clients)

abbrev pub assign_found :
    OmegaUserRole
    → AssignOmegaSessionDto
    → OmegaTables
    → Option (String × OmegaWhatsappSession)
    → Reply DecoratedSession × OmegaTables
assign_found actor dto tables none = (refused session_not_found, tables)
assign_found actor dto tables (some (key, row)) =
    assign_named actor dto.override_limit key row tables (named dto.client_id)

unfoldable pub assign_session :
    String
    → AssignOmegaSessionDto
    → OmegaUserRole
    → OmegaTables
    → Reply DecoratedSession × OmegaTables
assign_session id dto actor tables = assign_found actor dto tables (find_session id tables.sessions)

abbrev pub unassigned : OmegaWhatsappSession → OmegaWhatsappSession
unassigned row = record row { client_id = none; assigned_to_client = false }

abbrev pub flagged : Bool → OmegaWhatsappSession → OmegaWhatsappSession
flagged requested row = record row { replacement_requested = requested }

-- A change of the row that is found by its id, and what the route returns.
abbrev pub change_found :
    (OmegaWhatsappSession → OmegaWhatsappSession)
    → OmegaTables
    → Option (String × OmegaWhatsappSession)
    → Reply DecoratedSession × OmegaTables
change_found change tables none = (refused session_not_found, tables)
change_found change tables (some (key, row)) =
    (done (decorate_session tables.clients key (change row)), save_session key (change row) tables)

unfoldable pub unassign_session : String → OmegaTables → Reply DecoratedSession × OmegaTables
unassign_session id tables = change_found unassigned tables (find_session id tables.sessions)

unfoldable pub update_replacement_flag :
    String → Bool → OmegaTables → Reply DecoratedSession × OmegaTables
update_replacement_flag id requested tables =
    change_found (flagged requested) tables (find_session id tables.sessions)
