-- ===== src/Omega/Placed.antt =====
-- What the writes of sessions and the synchronisation keep: each session's flag says whether it has
-- a client, the client exists, and no two sessions have one gateway id.
use wp_open_omega.Omega.{OmegaUserRole, OmegaWhatsappSession, OmegaClient, OmegaTables, named}
use wp_open_omega.Omega.Sessions.{
  AssignOmegaSessionDto, limit_refusal, assigned, assign_to, assign_named, assign_found,
  assign_session, find_session, unassigned, flagged, change_found, unassign_session,
  update_replacement_flag,
}
use wp_open_omega.Omega.Sync.{
  OpenwaSessionSnapshot, SyncLoop, went_on, broke_off, refreshed, new_session, stale, sync_one,
  sync_snapshots, mark_stale, settle, sync_sessions,
}
use wp_open_omega.Omega.Clients.{is_missing}
use wp_open_omega.Omega.Limits.{assign_to_refused, assign_to_saved}
use wp_open_omega.Omega.Linked.{IsPlaced}
use wp_open_omega.Common.{
  ℕ, String, ◌≡◌, refl, sym, subst, ◌⊎◌, inl, inr, Bool, Option, none, some, List, [], ◌∷◌, arith,
  str_eq, lookup, insert, has_key, lookup-All, All-erase, Bool-cases, Option-cases, All, All-insert,
  IsKeyed, insert-IsKeyed, find_row-All,
}

-- The sessions of the tables.
abbrev pub ArePlaced : List (String × OmegaClient) → List (String × OmegaWhatsappSession) → Type 0
ArePlaced clients rows = All (IsPlaced clients) rows × IsKeyed rows

insert-ArePlaced :
    (clients : List (String × OmegaClient)) (key : String) (row : OmegaWhatsappSession)
    (rows : List (String × OmegaWhatsappSession))
    → IsPlaced clients (key, row)
    → ArePlaced clients rows
    → ArePlaced clients (insert key row rows)
insert-ArePlaced clients key row rows p h =
    (All-insert (IsPlaced clients) key row rows p h.0, insert-IsKeyed key row rows h.1)

abbrev pub with_sessions : List (String × OmegaWhatsappSession) → OmegaTables → OmegaTables
with_sessions rows tables = record tables { sessions = rows }

-- A write of sessions leaves the rest of the tables.
abbrev pub KeepsRest : OmegaTables → OmegaTables → Type 0
KeepsRest before after =
    (after ≡ with_sessions after.sessions before) × ArePlaced before.clients after.sessions

named_idempotent :
    (reference : Option String) (id : String)
    → named reference ≡ some id
    → named (some id) ≡ some id
named_idempotent none id e = cc e
named_idempotent (some s) id e = ground arith

assigned-IsPlaced :
    (key id : String) (row : OmegaWhatsappSession) (client : OmegaClient)
    (clients : List (String × OmegaClient))
    → named (some id) ≡ some id
    → lookup id clients ≡ some client
    → IsPlaced clients (key, assigned id row)
unfolding has_key
assigned-IsPlaced key id row client clients n e = (rw n refl, rw (n, is_missing) (rw e refl))

assign_to-KeepsRest :
    (actor : OmegaUserRole) (override : Bool) (key : String) (row : OmegaWhatsappSession)
    (tables : OmegaTables) (client_id : String) (found : Option OmegaClient)
    → named (some client_id) ≡ some client_id
    → lookup client_id tables.clients ≡ found
    → ArePlaced tables.clients tables.sessions
    → KeepsRest tables (assign_to actor override key row tables client_id found).1
assign_to-KeepsRest actor override key row tables client_id none n c h = (refl, h)
assign_to-KeepsRest actor override key row tables client_id (some client) n c h =
    elim (Option-cases (limit_refusal actor override client_id client row tables.sessions)) [
      | inl free ↦
          subst (KeepsRest tables)
            (sym (assign_to_saved actor override key row tables client_id client free))
            (
              refl,
              insert-ArePlaced tables.clients key (assigned client_id row) tables.sessions
                  (assigned-IsPlaced key client_id row client tables.clients n c) h,
            )
      | inr (error, refusal) ↦
          subst (KeepsRest tables)
            (sym (assign_to_refused actor override key row tables client_id client error refusal))
            (refl, h)
    ]

assign_named-KeepsRest :
    (actor : OmegaUserRole) (override : Bool) (key : String) (row : OmegaWhatsappSession)
    (tables : OmegaTables) (reference client_id : Option String)
    → named reference ≡ client_id
    → ArePlaced tables.clients tables.sessions
    → KeepsRest tables (assign_named actor override key row tables client_id).1
assign_named-KeepsRest actor override key row tables reference none n h = (refl, h)
assign_named-KeepsRest actor override key row tables reference (some id) n h =
    assign_to-KeepsRest actor override key row tables id (lookup id tables.clients)
      (named_idempotent reference id n) refl h

assign_found-KeepsRest :
    (actor : OmegaUserRole) (dto : AssignOmegaSessionDto) (tables : OmegaTables)
    (found : Option (String × OmegaWhatsappSession))
    → ArePlaced tables.clients tables.sessions
    → KeepsRest tables (assign_found actor dto tables found).1
assign_found-KeepsRest actor dto tables none h = (refl, h)
assign_found-KeepsRest actor dto tables (some (key, row)) h =
    assign_named-KeepsRest actor dto.override_limit key row tables dto.client_id
      (named dto.client_id) refl h

pub assign_session-KeepsRest :
    (id : String) (dto : AssignOmegaSessionDto) (actor : OmegaUserRole) (tables : OmegaTables)
    → ArePlaced tables.clients tables.sessions
    → KeepsRest tables (assign_session id dto actor tables).1
unfolding assign_session
assign_session-KeepsRest id dto actor tables h =
    assign_found-KeepsRest actor dto tables (find_session id tables.sessions) h

change_found-KeepsRest :
    (change : OmegaWhatsappSession → OmegaWhatsappSession) (tables : OmegaTables)
    (found : Option (String × OmegaWhatsappSession))
    → ((key : String) (row : OmegaWhatsappSession)
        → found ≡ some (key, row)
        → IsPlaced tables.clients (key, change row))
    → ArePlaced tables.clients tables.sessions
    → KeepsRest tables (change_found change tables found).1
change_found-KeepsRest change tables none p h = (refl, h)
change_found-KeepsRest change tables (some (key, row)) p h =
    (refl, insert-ArePlaced tables.clients key (change row) tables.sessions (p key row refl) h)

pub unassign_session-KeepsRest :
    (id : String) (tables : OmegaTables)
    → ArePlaced tables.clients tables.sessions
    → KeepsRest tables (unassign_session id tables).1
unfolding unassign_session
unassign_session-KeepsRest id tables h =
    change_found-KeepsRest unassigned tables (find_session id tables.sessions)
      (λ key row e. (refl, refl)) h

pub update_replacement_flag-KeepsRest :
    (id : String) (requested : Bool) (tables : OmegaTables)
    → ArePlaced tables.clients tables.sessions
    → KeepsRest tables (update_replacement_flag id requested tables).1
unfolding update_replacement_flag
update_replacement_flag-KeepsRest id requested tables h =
    change_found-KeepsRest (flagged requested) tables (find_session id tables.sessions)
      (λ key row e.
        find_row-All (IsPlaced tables.clients) (λ r. str_eq r.id id) (key, row) tables.sessions h.0
          e)
      h

-- What the first loop of a synchronisation ends with, and what all of it does.
abbrev ArePaired : List (String × OmegaClient) → SyncLoop → Type 0
ArePaired clients (broke_off saved) = ArePlaced clients saved
ArePaired clients (went_on saved left) = ArePlaced clients saved × All (IsPlaced clients) left

outcome :
    (one : SyncLoop)
    → ((saved : List (String × OmegaWhatsappSession)) × (one ≡ broke_off saved))
      ⊎ ((saved : List (String × OmegaWhatsappSession)) × (left : List
            (String × OmegaWhatsappSession))
          × (one ≡ went_on saved left))
outcome (broke_off saved) = inl (saved, refl)
outcome (went_on saved left) = inr (saved, left, refl)

module _ (new_id : String → String) (now : ℕ) (clients : List (String × OmegaClient)) where
  sync_one-ArePaired :
      (snapshot : OpenwaSessionSnapshot) (rows existing : List (String × OmegaWhatsappSession))
      (found : Option OmegaWhatsappSession)
      → lookup snapshot.openwa_session_id existing ≡ found
      → ArePlaced clients rows
      → All (IsPlaced clients) existing
      → ArePaired clients (sync_one new_id now snapshot rows existing found)
  sync_one-ArePaired snapshot rows existing (some current) e h k = (
    insert-ArePlaced clients snapshot.openwa_session_id (refreshed now snapshot current) rows
        (refl, (lookup-All (IsPlaced clients) snapshot.openwa_session_id existing k e).1) h,
    All-erase (IsPlaced clients) snapshot.openwa_session_id existing k,
  )
  sync_one-ArePaired snapshot rows existing none e h k =
      elim (Bool-cases (has_key snapshot.openwa_session_id rows)) [
        | inl taken ↦ rw (taken, sync_one) h
        | inr free ↦
            rw (free, sync_one)
              (
                insert-ArePlaced clients snapshot.openwa_session_id
                    (new_session (new_id snapshot.openwa_session_id) now snapshot) rows (refl, refl)
                    h,
                k,
              )
      ]

  sync_snapshots_broke_off :
      (s : OpenwaSessionSnapshot) (snapshots : List OpenwaSessionSnapshot)
      (rows existing saved : List (String × OmegaWhatsappSession))
      → sync_one new_id now s rows existing (lookup s.openwa_session_id existing) ≡ broke_off saved
      → sync_snapshots new_id now (s ∷ snapshots) rows existing ≡ broke_off saved
  unfolding sync_snapshots
  sync_snapshots_broke_off s snapshots rows existing saved e = rw (e, sync_snapshots) refl

  sync_snapshots_went_on :
      (s : OpenwaSessionSnapshot) (snapshots : List OpenwaSessionSnapshot)
      (rows existing saved left : List (String × OmegaWhatsappSession))
      → sync_one new_id now s rows existing (lookup s.openwa_session_id existing)
        ≡ went_on saved left
      → sync_snapshots new_id now (s ∷ snapshots) rows existing
        ≡ sync_snapshots new_id now snapshots saved left
  unfolding sync_snapshots
  sync_snapshots_went_on s snapshots rows existing saved left e = rw (e, sync_snapshots) refl

  sync_snapshots-ArePaired :
      (snapshots : List OpenwaSessionSnapshot)
      (rows existing : List (String × OmegaWhatsappSession))
      → ArePlaced clients rows
      → All (IsPlaced clients) existing
      → ArePaired clients (sync_snapshots new_id now snapshots rows existing)
  unfolding sync_snapshots
  sync_snapshots-ArePaired [] rows existing h k = (h, k)
  sync_snapshots-ArePaired (s ∷ snapshots) rows existing h k =
      let one = sync_one new_id now s rows existing (lookup s.openwa_session_id existing) in
      let step =
        sync_one-ArePaired s rows existing (lookup s.openwa_session_id existing) refl h k in
      elim (outcome one) [
        | inl (saved, e) ↦
            subst (ArePaired clients)
              (sym (sync_snapshots_broke_off s snapshots rows existing saved e))
              (subst (ArePaired clients) e step)
        | inr (saved, left, e) ↦
            let both = subst (ArePaired clients) e step in
            subst (ArePaired clients)
              (sym (sync_snapshots_went_on s snapshots rows existing saved left e))
              (sync_snapshots-ArePaired snapshots saved left both.0 both.1)
      ]

  mark_stale-ArePlaced :
      (left rows : List (String × OmegaWhatsappSession))
      → All (IsPlaced clients) left
      → ArePlaced clients rows
      → ArePlaced clients (mark_stale new_id now left rows)
  unfolding mark_stale
  mark_stale-ArePlaced [] rows k h = h
  mark_stale-ArePlaced ((key, row) ∷ left) rows k h =
      mark_stale-ArePlaced left (insert key (stale now row) rows) k.1
        (insert-ArePlaced clients key (stale now row) rows k.0 h)

  settle-ArePlaced :
      (r : SyncLoop) → ArePaired clients r → ArePlaced clients (settle new_id now r).0
  settle-ArePlaced (broke_off saved) h = h
  settle-ArePlaced (went_on saved left) h = mark_stale-ArePlaced left saved h.1 h.0

  -- Whether or not it is answered, a synchronisation leaves the rows placed.
  pub sync_sessions-ArePlaced :
      (snapshots : List OpenwaSessionSnapshot) (rows : List (String × OmegaWhatsappSession))
      → ArePlaced clients rows
      → ArePlaced clients (sync_sessions new_id now snapshots rows).0
  unfolding sync_sessions
  sync_sessions-ArePlaced snapshots rows h =
      settle-ArePlaced (sync_snapshots new_id now snapshots rows rows)
        (sync_snapshots-ArePaired snapshots rows rows h h.0)
