-- ===== src/Omega/Sync.antt =====
-- The synchronisation with the sessions of the gateway: `syncSessions` of
-- src/modules/omega/omega-admin.service.ts and `mapStatus` of openwa-api-client.service.ts. The
-- gateway's answer, the clock's reading and the ids of new rows are arguments, the ids as a function
-- of the gateway's; a new row whose openwaSessionId is taken breaks the unique index, and the
-- request fails there: there is no transaction, so what it has saved by then stays.
use wp_open_omega.Omega.{
  OmegaWhatsappSession, OmegaSessionStatus, connected, disconnected, needs_reconnect, starting,
  qr_required, named,
}
use wp_open_omega.Common.{
  ℕ, String, Bool, true, false, ◌||◌, Option, none, some, List, [], ◌∷◌, if◌then◌else◌, str_eq,
  is_some, lookup, insert, erase, has_key,
}

pub record OpenwaSessionSnapshot : Type 0 where
  pub openwa_session_id : String
  pub openwa_session_name : Option String
  pub phone_number : Option String
  pub status : OmegaSessionStatus
  pub last_seen_at : Option ℕ

-- The gateway's statuses in Omega's words.
unfoldable pub map_status : String → OmegaSessionStatus
map_status status =
    if str_eq status "ready"
    then connected
    else if str_eq status "initializing"
        || str_eq status "authenticating"
        || str_eq status "connecting"
    then starting
    else if str_eq status "qr_ready"
    then qr_required
    else if str_eq status "failed"
    then needs_reconnect
    else disconnected

-- What a synchronisation writes over a row that it finds.
abbrev pub refreshed : ℕ → OpenwaSessionSnapshot → OmegaWhatsappSession → OmegaWhatsappSession
refreshed now snapshot current = record current {
  openwa_session_name = snapshot.openwa_session_name;
  phone_number = snapshot.phone_number;
  status = snapshot.status;
  assigned_to_client = is_some (named current.client_id);
  last_seen_at = snapshot.last_seen_at;
  last_sync_at = some now;
}

abbrev pub new_session : String → ℕ → OpenwaSessionSnapshot → OmegaWhatsappSession
new_session id now snapshot = record {
  id = id;
  openwa_session_name = snapshot.openwa_session_name;
  client_id = none;
  phone_number = snapshot.phone_number;
  status = snapshot.status;
  assigned_to_client = false;
  replacement_requested = false;
  last_seen_at = snapshot.last_seen_at;
  last_sync_at = some now;
}

-- A row that the gateway no longer reports.
abbrev pub stale : ℕ → OmegaWhatsappSession → OmegaWhatsappSession
stale now row = record row {
  status = if is_some (named row.client_id) then needs_reconnect else disconnected;
  last_sync_at = some now;
}

-- How far the first loop has come: the table as it is stored, and the rows that no snapshot has named
-- yet, or a write that broke the index, behind which nothing more is written.
pub data SyncLoop : Type 0 where
  went_on : List (String × OmegaWhatsappSession) → List (String × OmegaWhatsappSession) → SyncLoop
  broke_off : List (String × OmegaWhatsappSession) → SyncLoop

module _ (new_id : String → String) (now : ℕ) where
  -- One snapshot, with the table and the rows of it that no snapshot has named yet.
  abbrev pub sync_one :
      OpenwaSessionSnapshot
      → List (String × OmegaWhatsappSession)
      → List (String × OmegaWhatsappSession)
      → Option OmegaWhatsappSession
      → SyncLoop
  sync_one snapshot rows existing (some current) =
      went_on (insert snapshot.openwa_session_id (refreshed now snapshot current) rows)
        (erase snapshot.openwa_session_id existing)
  sync_one snapshot rows existing none =
      if has_key snapshot.openwa_session_id rows
      then broke_off rows
      else went_on
          (insert snapshot.openwa_session_id
            (new_session (new_id snapshot.openwa_session_id) now snapshot) rows)
          existing

  unfoldable pub sync_snapshots :
      List OpenwaSessionSnapshot
      → List (String × OmegaWhatsappSession)
      → List (String × OmegaWhatsappSession)
      → SyncLoop
  sync_snapshots [] rows existing = went_on rows existing
  sync_snapshots (snapshot ∷ snapshots) rows existing =
      elim (sync_one snapshot rows existing (lookup snapshot.openwa_session_id existing)) [
        | broke_off saved ↦ broke_off saved
        | went_on saved left ↦ sync_snapshots snapshots saved left
      ]

  -- The second loop, over what is left.
  unfoldable pub mark_stale :
      List (String × OmegaWhatsappSession)
      → List (String × OmegaWhatsappSession)
      → List (String × OmegaWhatsappSession)
  mark_stale [] rows = rows
  mark_stale ((key, row) ∷ left) rows = mark_stale left (insert key (stale now row) rows)

  -- Behind the first loop: the table, and whether the request is answered.
  abbrev pub settle : SyncLoop → List (String × OmegaWhatsappSession) × Bool
  settle (broke_off saved) = (saved, false)
  settle (went_on saved left) = (mark_stale left saved, true)

  unfoldable pub sync_sessions :
      List OpenwaSessionSnapshot
      → List (String × OmegaWhatsappSession)
      → List (String × OmegaWhatsappSession) × Bool
  sync_sessions snapshots rows = settle (sync_snapshots snapshots rows rows)
