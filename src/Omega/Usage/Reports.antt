-- ===== src/Omega/Usage/Reports.antt =====
-- What the usage service reports: the overview of all clients and the report of one agree, and
-- their numbers are counts over the table of messages.
use wp_open_omega.Omega.{OmegaClient, OmegaWhatsappSession, named}
use wp_open_omega.Omega.Sessions.{belongs_to, count_sessions}
use wp_open_omega.Omega.Usage.{
  SentMessage, Calendar, since, is_eligible, ClientUsage, tally, no_tally, client_row,
  compose_usage, build_usage_overview,
}
use wp_open_omega.Omega.ClientUsage.{
  ClientUsageReport, no_counts, count_messages, compose_client_usage, client_sessions, is_among,
  build_client_usage,
}
use wp_open_omega.Omega.Usage.Counts.{
  count_if-keep, count_if-cong, at, at-zeros, is_for, tally-totals, tally-monthly, tally-per_client,
  count_messages-totals, count_messages-by_session,
}
use wp_open_omega.Common.{
  ℕ, String, ◌≡◌, refl, sym, ◌∙◌, inl, inr, true, false, ◌&&◌, Option, none, some, List, [], ◌∷◌,
  map, arith, str_eq, is_empty, keep, count_if, All, All-mono, lookup, has_key, eq_iff, Bool-cases,
  IsKeyed,
}

among_none :
    (id key : String) (m : SentMessage) (sessions : List (String × OmegaWhatsappSession))
    → m.session_id ≡ key
    → has_key key sessions ≡ false
    → is_among (client_sessions id sessions) m ≡ false
unfolding has_key lookup
among_none id key m [] e h = refl
among_none id key m ((here, row) ∷ sessions) e h =
    ground (arith, eq_iff here key, eq_iff m.session_id here, among_none id key m sessions)

same_client :
    (id : String) (reference : Option String)
    → is_empty id ≡ false
    → (elim (named reference) [ none ↦ false | some client ↦ str_eq client id ])
      ≡ (elim reference [ none ↦ false | some client ↦ str_eq client id ])
same_client id none h = refl
same_client id (some client) h = ground (arith, eq_iff client "", eq_iff client id, eq_iff id "")

-- A message counts for a client where its session is one of the client's.
is_for-is_among :
    (id : String) (m : SentMessage) (sessions : List (String × OmegaWhatsappSession))
    → is_empty id ≡ false
    → IsKeyed sessions
    → is_for sessions id m ≡ is_among (client_sessions id sessions) m
unfolding IsKeyed lookup
is_for-is_among id m [] n h = refl
is_for-is_among id m ((here, row) ∷ sessions) n h = elim (Bool-cases (str_eq here m.session_id)) [
  | inl same ↦ ground (
    arith,
    same_client id row.client_id n,
    eq_iff here m.session_id,
    eq_iff m.session_id here,
    among_none id here m sessions (sym ((eq_iff here m.session_id).0 same)) h.0,
  )
  | inr other ↦ ground (
    arith,
    eq_iff here m.session_id,
    eq_iff m.session_id here,
    is_for-is_among id m sessions n h.1,
  )
]

-- The row of the overview that a client's own report gives.
abbrev pub summary : String × OmegaClient → ClientUsageReport → ClientUsage
summary (id, client) report = record {
  client_id = report.client_id;
  company_name = report.company_name;
  status = client.status;
  messages_today = report.messages_today;
  messages_this_month = report.messages_this_month;
  monthly_message_limit = report.monthly_message_limit;
  session_count = report.session_count;
  whatsapp_account_limit = report.whatsapp_account_limit;
}

map-eq {ℓ κ} :
    {A : Type ℓ} {B : Type κ} (f g : A → B) (xs : List A)
    → ((x : A) → f x ≡ g x)
    → map f xs ≡ map g xs
map-eq f g [] e = refl
map-eq f g (x ∷ xs) e = cc (e x, map-eq f g xs e)

map-cong {ℓ κ ι} :
    {A : Type ℓ} {B : Type κ} (P : A → Type ι) (f g : A → B) (xs : List A)
    → ((x : A) → P x → f x ≡ g x)
    → All P xs
    → map f xs ≡ map g xs
map-cong P f g [] e h = refl
map-cong P f g (x ∷ xs) e h = cc (e x h.0, map-cong P f g xs e h.1)

-- The rows of a list take in the messages of their sessions.
abbrev TakesIn : List (String × OmegaWhatsappSession) → String × OmegaWhatsappSession → Type 0
TakesIn rows row = (m : SentMessage) → str_eq m.session_id row.0 ≡ true → is_among rows m ≡ true

TakesIn-itself : (rows : List (String × OmegaWhatsappSession)) → All (TakesIn rows) rows
TakesIn-itself [] = tt
TakesIn-itself (row ∷ rows) = (
  λ m e. rw e refl,
  All-mono (TakesIn rows) (TakesIn (row ∷ rows)) rows
      (λ r h m e. let tail = h m e in ground (arith, tail)) (TakesIn-itself rows),
)

module _ (calendar : Calendar) (sessions : List (String × OmegaWhatsappSession))
    (table : List SentMessage) where
  -- The table of the messages that count.
  abbrev eligible : List SentMessage
  eligible = keep (is_eligible calendar) table

  same_count :
      (id : String) (start : ℕ)
      → is_empty id ≡ false
      → IsKeyed sessions
      → count_if (λ m. is_for sessions id m && since start m) eligible
        ≡ count_if
            (since start)
            (keep (λ m. is_eligible calendar m && is_among (client_sessions id sessions) m) table)
  same_count id start n k =
      count_if-keep (λ m. is_for sessions id m && since start m) (is_eligible calendar) table
      ∙ count_if-cong _
          (λ m.
            (is_eligible calendar m && is_among (client_sessions id sessions) m) && since start m)
          table (λ m. rw (is_for-is_among id m sessions n k) (ground arith))
      ∙ sym (count_if-keep (since start) _ table)

  same_sessions :
      (id : String)
      → count_sessions id sessions ≡ count_if (λ row. true) (client_sessions id sessions)
  same_sessions id =
      count_if-cong (λ row. belongs_to id row.1) _ sessions (λ row. ground arith)
      ∙ sym (count_if-keep (λ row. true) (λ row. belongs_to id row.1) sessions)

  client_row-summary :
      (client : String × OmegaClient)
      → is_empty client.0 ≡ false
      → IsKeyed sessions
      → client_row sessions (tally calendar sessions eligible (no_tally calendar.months)) client
        ≡ summary client (build_client_usage calendar client.0 client.1 sessions table)
  unfolding build_client_usage compose_client_usage lookup count_messages
  client_row-summary (id, client) n k =
      let own =
        keep (λ m. is_eligible calendar m && is_among (client_sessions id sessions) m) table in
      let over = tally-per_client calendar sessions eligible (no_tally calendar.months) id in
      let report = count_messages-totals calendar sessions own (no_counts calendar.months) in
      cc (
        over.0,
        over.1,
        report.0,
        report.1,
        same_count id calendar.day_start n k,
        same_count id calendar.month_start n k,
        same_sessions id,
      )

  map-summary :
      (clients : List (String × OmegaClient))
      → All (λ client. is_empty client.0 ≡ false) clients
      → IsKeyed sessions
      → map
          (client_row sessions (tally calendar sessions eligible (no_tally calendar.months)))
          clients
        ≡ map
            (λ client.
              summary client (build_client_usage calendar client.0 client.1 sessions table))
            clients
  map-summary [] n k = refl
  map-summary (client ∷ clients) n k =
      cc (client_row-summary client n.0 k, map-summary clients n.1 k)

  session_counts :
      (own : List (String × OmegaWhatsappSession)) (key : String) (row : OmegaWhatsappSession)
      → TakesIn own (key, row)
      → count_if
          (λ m. str_eq m.session_id key)
          (keep (λ m. is_eligible calendar m && is_among own m) table)
        ≡ count_if (λ m. str_eq m.session_id key) eligible
  session_counts own key row h =
      count_if-keep (λ m. str_eq m.session_id key) (λ m. is_eligible calendar m && is_among own m)
        table
      ∙ count_if-cong _ (λ m. is_eligible calendar m && str_eq m.session_id key) table
          (λ m. let among = h m in ground (arith, among))
      ∙ sym (count_if-keep (λ m. str_eq m.session_id key) (is_eligible calendar) table)

  -- Where no client's id is empty and no two sessions have one gateway id, the rows of the overview
  -- are those of the clients' own reports: the same messages today and this month, and as many
  -- sessions, though one is counted from all messages and the other from a query by sessions.
  pub build_usage_overview-build_client_usage :
      (clients : List (String × OmegaClient))
      → All (λ client. is_empty client.0 ≡ false) clients
      → IsKeyed sessions
      → (build_usage_overview calendar clients sessions table).per_client
        ≡ map
            (λ client.
              summary client (build_client_usage calendar client.0 client.1 sessions table))
            clients
  unfolding build_usage_overview compose_usage
  build_usage_overview-build_client_usage clients n k = map-summary clients n k

  -- The overview counts each eligible message once: in the day's total if it is of today, in the
  -- month's if it is of this month, and in the trend at each month whose key it has.
  pub build_usage_overview-counts :
      (clients : List (String × OmegaClient))
      → ((build_usage_overview calendar clients sessions table).messages_today
          ≡ count_if (since calendar.day_start) eligible)
        × ((build_usage_overview calendar clients sessions table).messages_this_month
            ≡ count_if (since calendar.month_start) eligible)
        × ((build_usage_overview calendar clients sessions table).trend
            ≡ map
                (λ month. record {
                  month = month;
                  messages =
                      count_if (λ m. str_eq (calendar.month_key m.created_at) month) eligible;
                })
                calendar.months)
  unfolding build_usage_overview compose_usage
  build_usage_overview-counts clients =
      let totals = tally-totals calendar sessions eligible (no_tally calendar.months) in
      (
        omega (arith, totals.0),
        omega (arith, totals.1),
        map-eq _ _ calendar.months (λ month.
            let n : at month (tally calendar sessions eligible (no_tally calendar.months)).monthly
                ≡ count_if (λ m. str_eq (calendar.month_key m.created_at) month) eligible =
              omega (
                arith,
                tally-monthly calendar sessions eligible (no_tally calendar.months) month,
                at-zeros calendar.months month,
              ) in
            rw n refl),
      )

  -- The report of a client gives each of its sessions, as the messages of this month, all its
  -- eligible messages of the six months.
  pub build_client_usage-by_session :
      (id : String) (client : OmegaClient)
      → (build_client_usage calendar id client sessions table).by_session
        ≡ map
            (λ row. (
              record {
                session_id = row.1.id;
                openwa_session_id = row.0;
                openwa_session_name = row.1.openwa_session_name;
                messages_this_month = count_if (λ m. str_eq m.session_id row.0) eligible;
              },
              row.1.status,
            ))
            (client_sessions id sessions)
  unfolding build_client_usage compose_client_usage lookup
  build_client_usage-by_session id client =
      let own = client_sessions id sessions in
      let asked = keep (λ m. is_eligible calendar m && is_among own m) table in
      map-cong (TakesIn own) _ _ own
        (λ row h.
          let n : at row.0 (count_messages calendar asked (no_counts calendar.months)).by_session
              ≡ count_if (λ m. str_eq m.session_id row.0) eligible =
            omega (
              arith,
              count_messages-by_session calendar sessions asked (no_counts calendar.months) row.0,
              session_counts own row.0 row.1 h,
            ) in
          rw n refl)
        (TakesIn-itself own)
