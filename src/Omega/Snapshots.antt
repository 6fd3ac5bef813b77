-- ===== src/Omega/Snapshots.antt =====
-- What a synchronisation leaves in the table, row by row.
use wp_open_omega.Omega.{OmegaWhatsappSession, needs_reconnect, disconnected}
use wp_open_omega.Omega.Sync.{
  OpenwaSessionSnapshot, SyncLoop, went_on, broke_off, refreshed, new_session, stale,
  sync_snapshots, mark_stale, settle, sync_sessions,
}
use wp_open_omega.Common.{
  Bool, if◌then◌else◌, is_empty, ℕ, String, ◌≡◌, refl, sym, subst, ap, ◌∙◌, inl, inr, true, false,
  Option, none, some, List, [], ◌∷◌, map, arith, str_eq, lookup, insert, erase, has_key,
  lookup-insert, lookup-erase, eq_iff, str_eq_refl, Bool-cases, Option-cases, IsKeyed,
  has_key-insert, has_key-erase, is_some, erase-IsKeyed, lookup_absent,
}

-- The snapshots by the gateway's id.
abbrev pub by_id : List OpenwaSessionSnapshot → List (String × OpenwaSessionSnapshot)
by_id snapshots = map (λ snapshot. (snapshot.openwa_session_id, snapshot)) snapshots

-- By whether a client is named, which an empty id does not.
abbrev pub client_or {ℓ} : {A : Type ℓ} → Option String → A → A → A
client_or none with without = without
client_or (some id) with without = if is_empty id then without else with

module _ (new_id : String → String) (now : ℕ) where
  -- The row of a gateway id after the synchronisation, from its snapshot and the row before it.
  abbrev pub expected :
      String
      → Option OpenwaSessionSnapshot
      → Option OmegaWhatsappSession
      → Option OmegaWhatsappSession
  expected key none none = none
  expected key none (some row) = some (record row {
    status = client_or row.client_id needs_reconnect disconnected;
    last_sync_at = some now;
  })
  expected key (some snapshot) none = some (record {
    id = new_id key;
    openwa_session_name = snapshot.openwa_session_name;
    client_id = none;
    phone_number = snapshot.phone_number;
    status = snapshot.status;
    assigned_to_client = false;
    replacement_requested = false;
    last_seen_at = snapshot.last_seen_at;
    last_sync_at = some now;
  })
  expected key (some snapshot) (some row) = some (record {
    id = row.id;
    openwa_session_name = snapshot.openwa_session_name;
    client_id = row.client_id;
    phone_number = snapshot.phone_number;
    status = snapshot.status;
    assigned_to_client = client_or row.client_id true false;
    replacement_requested = row.replacement_requested;
    last_seen_at = snapshot.last_seen_at;
    last_sync_at = some now;
  })

  -- The row of an id once the first loop is over, and the rows it has left for the second.
  abbrev saved_row :
      String
      → Option OpenwaSessionSnapshot
      → Option OmegaWhatsappSession
      → Option OmegaWhatsappSession
      → Option OmegaWhatsappSession
  saved_row key none existing row = row
  saved_row key (some snapshot) none row = some (new_session (new_id key) now snapshot)
  saved_row key (some snapshot) (some current) row = some (refreshed now snapshot current)

  abbrev left_row :
      Option OpenwaSessionSnapshot → Option OmegaWhatsappSession → Option OmegaWhatsappSession
  left_row none existing = existing
  left_row (some snapshot) existing = none

  lookup-mark_stale :
      (left rows : List (String × OmegaWhatsappSession)) (key : String)
      → IsKeyed left
      → lookup key (mark_stale new_id now left rows)
        ≡ elim (lookup key left) [ none ↦ lookup key rows | some row ↦ some (stale now row) ]
  unfolding IsKeyed lookup mark_stale
  lookup-mark_stale [] rows key h = refl
  lookup-mark_stale ((here, row) ∷ left) rows key h =
      let rest = lookup-mark_stale left (insert here (stale now row) rows) key h.1 in
      let apart = lookup_absent here left h.0 in
      ground (arith, rest, apart, lookup-insert here key (stale now row) rows, eq_iff here key)

  -- What the first loop ends with.
  abbrev Loop :
      List OpenwaSessionSnapshot
      → List (String × OmegaWhatsappSession)
      → List (String × OmegaWhatsappSession)
      → SyncLoop
      → Type 0
  Loop snapshots rows existing (broke_off saved) = ⊥
  Loop snapshots rows existing (went_on saved left) =
      ((key : String)
        → lookup key saved
          ≡ saved_row key (lookup key (by_id snapshots)) (lookup key existing) (lookup key rows))
      × ((key : String)
          → lookup key left ≡ left_row (lookup key (by_id snapshots)) (lookup key existing))
      × IsKeyed left

  -- Of the ids that are still to come, the table has the rows that are left.
  abbrev Agree :
      List OpenwaSessionSnapshot
      → List (String × OmegaWhatsappSession)
      → List (String × OmegaWhatsappSession)
      → Type 0
  Agree snapshots rows existing =
      (key : String)
      → has_key key (by_id snapshots) ≡ true
      → has_key key rows ≡ has_key key existing

  Loop-step :
      (snapshots more : List OpenwaSessionSnapshot)
      (rows existing rows2 existing2 : List (String × OmegaWhatsappSession)) (r : SyncLoop)
      → ((key : String)
          → saved_row key (lookup key (by_id snapshots)) (lookup key existing2) (lookup key rows2)
            ≡ saved_row key (lookup key (by_id more)) (lookup key existing) (lookup key rows))
      → ((key : String)
          → left_row (lookup key (by_id snapshots)) (lookup key existing2)
            ≡ left_row (lookup key (by_id more)) (lookup key existing))
      → Loop snapshots rows2 existing2 r
      → Loop more rows existing r
  Loop-step snapshots more rows existing rows2 existing2 (broke_off saved) f g h = h
  Loop-step snapshots more rows existing rows2 existing2 (went_on saved left) f g h =
      ((λ key. h.0 key ∙ f key), (λ key. h.1 key ∙ g key), h.2)

  sync_snapshots_found :
      (s : OpenwaSessionSnapshot) (snapshots : List OpenwaSessionSnapshot)
      (rows existing : List (String × OmegaWhatsappSession)) (current : OmegaWhatsappSession)
      → lookup s.openwa_session_id existing ≡ some current
      → sync_snapshots new_id now (s ∷ snapshots) rows existing
        ≡ sync_snapshots new_id now snapshots
            (insert s.openwa_session_id (refreshed now s current) rows)
            (erase s.openwa_session_id existing)
  unfolding sync_snapshots
  sync_snapshots_found s snapshots rows existing current e = rw (e, sync_snapshots) refl

  sync_snapshots_absent :
      (s : OpenwaSessionSnapshot) (snapshots : List OpenwaSessionSnapshot)
      (rows existing : List (String × OmegaWhatsappSession))
      → lookup s.openwa_session_id existing ≡ none
      → has_key s.openwa_session_id rows ≡ false
      → sync_snapshots new_id now (s ∷ snapshots) rows existing
        ≡ sync_snapshots new_id now snapshots
            (insert s.openwa_session_id (new_session (new_id s.openwa_session_id) now s) rows)
            existing
  unfolding sync_snapshots
  sync_snapshots_absent s snapshots rows existing e free = rw (e, free, sync_snapshots) refl

  Agree-step :
      (s : OpenwaSessionSnapshot) (snapshots : List OpenwaSessionSnapshot)
      (rows existing rows2 existing2 : List (String × OmegaWhatsappSession))
      → has_key s.openwa_session_id (by_id snapshots) ≡ false
      → ((key : String)
          → str_eq s.openwa_session_id key ≡ false
          → (has_key key rows2 ≡ has_key key rows) × (has_key key existing2 ≡ has_key key existing))
      → Agree (s ∷ snapshots) rows existing
      → Agree snapshots rows2 existing2
  unfolding has_key lookup
  Agree-step s snapshots rows existing rows2 existing2 d f a key here =
      elim (Bool-cases (str_eq s.openwa_session_id key)) [
        | inl same ↦ absurd (cc (d, here, (eq_iff s.openwa_session_id key).0 same))
        | inr other ↦ let both = f key other in both.0 ∙ a key (rw other here) ∙ sym both.1
      ]

  sync_snapshots-Loop :
      (snapshots : List OpenwaSessionSnapshot)
      (rows existing : List (String × OmegaWhatsappSession))
      → IsKeyed (by_id snapshots)
      → IsKeyed existing
      → Agree snapshots rows existing
      → Loop snapshots rows existing (sync_snapshots new_id now snapshots rows existing)
  unfolding sync_snapshots lookup IsKeyed has_key
  sync_snapshots-Loop [] rows existing d k a = ((λ key. refl), (λ key. refl), k)
  sync_snapshots-Loop (s ∷ snapshots) rows existing d k a =
      let id = s.openwa_session_id in
      elim (Option-cases (lookup id existing)) [
        | inl absent ↦
            let row = new_session (new_id id) now s in
            let free : has_key id rows ≡ false =
              a id (rw (str_eq_refl id) refl) ∙ ap is_some absent in
            subst (Loop (s ∷ snapshots) rows existing)
              (sym (sync_snapshots_absent s snapshots rows existing absent free))
              (Loop-step snapshots (s ∷ snapshots) rows existing (insert id row rows) existing _
                (λ key. ground (
                  arith,
                  eq_iff id key,
                  absent,
                  lookup_absent id (by_id snapshots) d.0,
                  lookup-insert id key row rows,
                ))
                (λ key.
                  ground (arith, eq_iff id key, absent, lookup_absent id (by_id snapshots) d.0))
                (sync_snapshots-Loop snapshots _ _ d.1 k (
                  Agree-step s snapshots rows existing _ _ d.0
                    (λ key other. (rw (has_key-insert id key row rows, other) refl, refl)) a)))
        | inr (current, found) ↦
            let row = refreshed now s current in
            subst (Loop (s ∷ snapshots) rows existing)
              (sym (sync_snapshots_found s snapshots rows existing current found))
              (Loop-step snapshots (s ∷ snapshots) rows existing (insert id row rows)
                (erase id existing) _
                (λ key. ground (
                  arith,
                  eq_iff id key,
                  found,
                  lookup_absent id (by_id snapshots) d.0,
                  lookup-insert id key row rows,
                  lookup-erase id key existing,
                ))
                (λ key. ground (
                  arith,
                  eq_iff id key,
                  found,
                  lookup_absent id (by_id snapshots) d.0,
                  lookup-erase id key existing,
                ))
                (sync_snapshots-Loop snapshots _ _ d.1 (erase-IsKeyed id existing k) (
                  Agree-step s snapshots rows existing _ _ d.0
                    (λ key other. (
                      rw (has_key-insert id key row rows, other) refl,
                      rw (has_key-erase id key existing, other) refl,
                    ))
                    a)))
      ]

  -- What the synchronisation answers, against a description of the table row by row.
  abbrev pub IsSynced :
      List OpenwaSessionSnapshot
      → List (String × OmegaWhatsappSession)
      → List (String × OmegaWhatsappSession) × Bool
      → Type 0
  IsSynced snapshots before (after, false) = ⊥
  IsSynced snapshots before (after, true) =
      (key : String)
      → lookup key after ≡ expected key (lookup key (by_id snapshots)) (lookup key before)

  expected_lem :
      (snapshots : List OpenwaSessionSnapshot)
      (rows saved left : List (String × OmegaWhatsappSession)) (key : String)
      → lookup key saved
        ≡ saved_row key (lookup key (by_id snapshots)) (lookup key rows) (lookup key rows)
      → lookup key left ≡ left_row (lookup key (by_id snapshots)) (lookup key rows)
      → IsKeyed left
      → lookup key (mark_stale new_id now left saved)
        ≡ expected key (lookup key (by_id snapshots)) (lookup key rows)
  expected_lem snapshots rows saved left key s l k =
      ground (arith, lookup-mark_stale left saved key k)

  settle-IsSynced :
      (snapshots : List OpenwaSessionSnapshot) (rows : List (String × OmegaWhatsappSession))
      (r : SyncLoop)
      → Loop snapshots rows rows r
      → IsSynced snapshots rows (settle new_id now r)
  settle-IsSynced snapshots rows (broke_off saved) h = h
  settle-IsSynced snapshots rows (went_on saved left) h =
      λ key. expected_lem snapshots rows saved left key (h.0 key) (h.1 key) h.2

  -- Where the gateway's ids are distinct and the table has no two rows of one id, the
  -- synchronisation answers, and every row is then the one its snapshot and the row before it
  -- give: where both are there, the row with its client and its replacement flag kept and the rest
  -- from the snapshot; where only the snapshot is, a row without a client; where only the row is,
  -- that row, marked as to be reconnected if it has a client and as disconnected otherwise; and
  -- none where neither is.
  pub sync_sessions-IsSynced :
      (snapshots : List OpenwaSessionSnapshot) (rows : List (String × OmegaWhatsappSession))
      → IsKeyed (by_id snapshots)
      → IsKeyed rows
      → IsSynced snapshots rows (sync_sessions new_id now snapshots rows)
  unfolding sync_sessions
  sync_sessions-IsSynced snapshots rows d k =
      settle-IsSynced snapshots rows (sync_snapshots new_id now snapshots rows rows)
        (sync_snapshots-Loop snapshots rows rows d k (λ key here. refl))
