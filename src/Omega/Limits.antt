-- ===== src/Omega/Limits.antt =====
-- The limit on a client's WhatsApp accounts: what `assignSession`, the other writes of a session and
-- the synchronisation do to how many sessions a client has.
use wp_open_omega.Omega.{
  OmegaUserRole, OmegaWhatsappSession, OmegaClient, OmegaTables, named, OmegaError,
}
use wp_open_omega.Omega.Sessions.{
  AssignOmegaSessionDto, belongs_to, count_sessions, is_super_admin, limit_refusal, assigned,
  assign_to, assign_named, assign_found, assign_session, save_session, find_session,
}
use wp_open_omega.Common.{
  suc, leb, some-injective, ◌+◌, ◌≤◌, max, String, ◌≡◌, refl, sym, subst, ap, ◌∙◌, inl, inr, Bool,
  false, ◌&&◌, Option, none, some, List, arith, if◌then◌else◌, str_eq, lookup, insert, eq_iff,
  Bool-cases, Option-cases, IsKeyed, count_if-insert, find_row-lookup,
}

-- A write that moves no session to the client leaves it no more of them.
count_sessions-insert :
    (client key : String) (old new : OmegaWhatsappSession)
    (rows : List (String × OmegaWhatsappSession))
    → lookup key rows ≡ some old
    → count_sessions client (insert key new rows) + (if belongs_to client old then 1 else 0)
      ≡ count_sessions client rows + (if belongs_to client new then 1 else 0)
count_sessions-insert client key old new rows e =
    count_if-insert (λ row. belongs_to client row.1) key old new rows e

-- At most the greater of what there was and the limit.
abbrev pub IsWithin :
    List (String × OmegaClient)
    → List (String × OmegaWhatsappSession)
    → List (String × OmegaWhatsappSession)
    → Type 0
IsWithin clients before after =
    (id : String) (client : OmegaClient)
    → lookup id clients ≡ some client
    → count_sessions id after ≤ max (count_sessions id before) client.whatsapp_account_limit

-- No override by a super admin.
abbrev pub overrides : OmegaUserRole → Bool → Bool
overrides actor override = override && is_super_admin actor

-- The check lets a new session in below the limit only.
limit_refusal-none :
    (actor : OmegaUserRole) (override : Bool) (client_id : String) (client : OmegaClient)
    (row : OmegaWhatsappSession) (rows : List (String × OmegaWhatsappSession))
    → overrides actor override ≡ false
    → limit_refusal actor override client_id client row rows ≡ none
    → belongs_to client_id row ≡ false
    → suc (count_sessions client_id rows) ≤ client.whatsapp_account_limit
limit_refusal-none actor override client_id client row rows o l b =
    elim (Bool-cases (leb client.whatsapp_account_limit (count_sessions client_id rows))) [
      | inl full ↦ ground (arith, rw (full, b) at l)
      | inr room ↦ ground arith
    ]

assigned-IsWithin :
    (actor : OmegaUserRole) (override : Bool) (key : String) (row : OmegaWhatsappSession)
    (clients : List (String × OmegaClient)) (rows : List (String × OmegaWhatsappSession))
    (client_id : String) (client : OmegaClient)
    → overrides actor override ≡ false
    → lookup key rows ≡ some row
    → lookup client_id clients ≡ some client
    → limit_refusal actor override client_id client row rows ≡ none
    → IsWithin clients rows (insert key (assigned client_id row) rows)
assigned-IsWithin actor override key row clients rows client_id client o e c l = λ id found there.
    let count = count_sessions-insert id key row (assigned client_id row) rows e in
    elim (Bool-cases (str_eq client_id id)) [
      | inl same ↦
          let here : client_id ≡ id = (eq_iff client_id id).0 same in
          let one : found ≡ client =
            some-injective (sym there ∙ ap (λ i. lookup i clients) (sym here) ∙ c) in
          elim (Bool-cases (belongs_to id row)) [
            | inl own ↦
                ground
                  (arith, count, rw same at (refl {a = belongs_to id (assigned client_id row)}))
            | inr apart ↦
                let away : belongs_to client_id row ≡ false = rw here apart in
                let room = limit_refusal-none actor override client_id client row rows o l away in
                let fits : suc (count_sessions id rows) ≤ found.whatsapp_account_limit =
                  rw (one, sym here) room in
                ground (arith, count, fits)
          ]
      | inr other ↦
          ground (arith, count, rw other at (refl {a = belongs_to id (assigned client_id row)}))
    ]

-- The writes that keep the client of a session.
abbrev pub KeepsClient : (OmegaWhatsappSession → OmegaWhatsappSession) → Type 0
KeepsClient change = (row : OmegaWhatsappSession) → (change row).client_id ≡ row.client_id

pub assign_to_refused :
    (actor : OmegaUserRole) (override : Bool) (key : String) (row : OmegaWhatsappSession)
    (tables : OmegaTables) (client_id : String) (client : OmegaClient) (e : OmegaError)
    → limit_refusal actor override client_id client row tables.sessions ≡ some e
    → (assign_to actor override key row tables client_id (some client)).1 ≡ tables
assign_to_refused actor override key row tables client_id client e h = rw (h, assign_to) refl

pub assign_to_saved :
    (actor : OmegaUserRole) (override : Bool) (key : String) (row : OmegaWhatsappSession)
    (tables : OmegaTables) (client_id : String) (client : OmegaClient)
    → limit_refusal actor override client_id client row tables.sessions ≡ none
    → (assign_to actor override key row tables client_id (some client)).1
      ≡ save_session key (assigned client_id row) tables
assign_to_saved actor override key row tables client_id client h = rw (h, assign_to) refl

-- Of two states of the tables.
abbrev pub StaysWithin : OmegaTables → OmegaTables → Type 0
StaysWithin before after =
    (after.clients ≡ before.clients) × IsWithin before.clients before.sessions after.sessions

StaysWithin-refl : (tables : OmegaTables) → StaysWithin tables tables
StaysWithin-refl tables = (refl, λ id client e. omega arith)

assign_to-StaysWithin :
    (actor : OmegaUserRole) (override : Bool) (key : String) (row : OmegaWhatsappSession)
    (tables : OmegaTables) (client_id : String) (found : Option OmegaClient)
    → overrides actor override ≡ false
    → lookup key tables.sessions ≡ some row
    → lookup client_id tables.clients ≡ found
    → StaysWithin tables (assign_to actor override key row tables client_id found).1
assign_to-StaysWithin actor override key row tables client_id none o e c = StaysWithin-refl tables
assign_to-StaysWithin actor override key row tables client_id (some client) o e c =
    elim (Option-cases (limit_refusal actor override client_id client row tables.sessions)) [
      | inl free ↦
          subst (StaysWithin tables)
            (sym (assign_to_saved actor override key row tables client_id client free))
            (
              refl,
              assigned-IsWithin actor override key row tables.clients tables.sessions client_id
                  client o e c free,
            )
      | inr (error, refusal) ↦
          subst (StaysWithin tables)
            (sym (assign_to_refused actor override key row tables client_id client error refusal))
            (StaysWithin-refl tables)
    ]

assign_named-StaysWithin :
    (actor : OmegaUserRole) (override : Bool) (key : String) (row : OmegaWhatsappSession)
    (tables : OmegaTables) (client_id : Option String)
    → overrides actor override ≡ false
    → lookup key tables.sessions ≡ some row
    → StaysWithin tables (assign_named actor override key row tables client_id).1
assign_named-StaysWithin actor override key row tables none o e = StaysWithin-refl tables
assign_named-StaysWithin actor override key row tables (some id) o e =
    assign_to-StaysWithin actor override key row tables id (lookup id tables.clients) o e refl

assign_found-StaysWithin :
    (actor : OmegaUserRole) (dto : AssignOmegaSessionDto) (tables : OmegaTables)
    (found : Option (String × OmegaWhatsappSession))
    → overrides actor dto.override_limit ≡ false
    → ((key : String) (row : OmegaWhatsappSession)
        → found ≡ some (key, row)
        → lookup key tables.sessions ≡ some row)
    → StaysWithin tables (assign_found actor dto tables found).1
assign_found-StaysWithin actor dto tables none o e = StaysWithin-refl tables
assign_found-StaysWithin actor dto tables (some (key, row)) o e =
    assign_named-StaysWithin actor dto.override_limit key row tables (named dto.client_id) o
      (e key row refl)

-- Unless a super admin overrides the limit, an assignment leaves every client with at most the
-- greater of the sessions it had and its account limit, and leaves the clients as they were;
-- where no two sessions have one gateway id.
pub assign_session-StaysWithin :
    (id : String) (dto : AssignOmegaSessionDto) (actor : OmegaUserRole) (tables : OmegaTables)
    → IsKeyed tables.sessions
    → overrides actor dto.override_limit ≡ false
    → StaysWithin tables (assign_session id dto actor tables).1
unfolding assign_session
assign_session-StaysWithin id dto actor tables k o =
    assign_found-StaysWithin actor dto tables (find_session id tables.sessions) o
      (λ key row e. find_row-lookup (λ r. str_eq r.id id) key row tables.sessions k e)
