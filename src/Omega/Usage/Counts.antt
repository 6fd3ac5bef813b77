-- ===== src/Omega/Usage/Counts.antt =====
-- What the loops of the usage service count: each number is a count over the table of messages.
use wp_open_omega.Omega.{OmegaWhatsappSession}
use wp_open_omega.Omega.Usage.{
  SentMessage, Calendar, since, bump, bump_since, ClientTally, Tally, client_of, entry_of,
  count_client, tally, tally_message, zeros,
}
use wp_open_omega.Omega.ClientUsage.{count_message, Counts, count_messages}
use wp_open_omega.Common.{
  ℕ, ◌+◌, String, ◌≡◌, refl, inl, inr, Bool, false, ◌&&◌, Option, none, some, List, [], ◌∷◌, arith,
  if◌then◌else◌, str_eq, keep, count_if, lookup, lookup-insert, get_or_default, eq_iff, Bool-cases,
}

module _ {ℓ} {A : Type ℓ} where
  pub count_if-keep :
      (p q : A → Bool) (xs : List A) → count_if p (keep q xs) ≡ count_if (λ x. q x && p x) xs
  count_if-keep p q [] = refl
  count_if-keep p q (x ∷ xs) = ground (arith, count_if-keep p q xs)

  pub count_if-cong :
      (p q : A → Bool) (xs : List A) → ((x : A) → p x ≡ q x) → count_if p xs ≡ count_if q xs
  count_if-cong p q [] e = refl
  count_if-cong p q (x ∷ xs) e = rw (e x) (omega (arith, count_if-cong p q xs e))

-- The count at a key, in a map of counts.
abbrev pub at : String → List (String × ℕ) → ℕ
at key counts = get_or_default (lookup key counts) 0

at-bump :
    (key other : String) (counts : List (String × ℕ))
    → at other (bump key counts) ≡ at other counts + (if str_eq key other then 1 else 0)
at-bump key other counts =
    ground (arith, lookup-insert key other (at key counts + 1) counts, eq_iff key other)

pub at-zeros : (months : List String) (key : String) → at key (zeros months) ≡ 0
unfolding lookup
at-zeros [] key = refl
at-zeros (month ∷ months) key = ground (arith, at-zeros months key)

-- Whether a message counts for a client.
abbrev pub is_for : List (String × OmegaWhatsappSession) → String → SentMessage → Bool
is_for sessions id message = elim (client_of sessions message) [
  | none ↦ false
  | some client ↦ str_eq client id
]

module _ (calendar : Calendar) (sessions : List (String × OmegaWhatsappSession)) where
  pub tally-totals :
      (messages : List SentMessage) (t : Tally)
      → ((tally calendar sessions messages t).today
          ≡ t.today + count_if (since calendar.day_start) messages)
        × ((tally calendar sessions messages t).month
            ≡ t.month + count_if (since calendar.month_start) messages)
  unfolding tally
  tally-totals [] t = (omega arith, omega arith)
  tally-totals (m ∷ messages) t =
      ground (arith, tally-totals messages (tally_message calendar sessions m t))

  pub tally-monthly :
      (messages : List SentMessage) (t : Tally) (key : String)
      → at key (tally calendar sessions messages t).monthly
        ≡ at key t.monthly + count_if (λ m. str_eq (calendar.month_key m.created_at) key) messages
  unfolding tally
  tally-monthly [] t key = omega arith
  tally-monthly (m ∷ messages) t key = omega (
    arith,
    tally-monthly messages (tally_message calendar sessions m t) key,
    at-bump (calendar.month_key m.created_at) key t.monthly,
  )

  abbrev counted : SentMessage → String → List (String × ClientTally) → ClientTally
  counted m client entries = record {
    today = bump_since calendar.day_start m (entry_of client entries).today;
    month = bump_since calendar.month_start m (entry_of client entries).month;
  }

  count_client-entry :
      (m : SentMessage) (found : Option String) (entries : List (String × ClientTally))
      (id : String)
      → ((entry_of id (count_client calendar m found entries)).today
          ≡ (entry_of id entries).today
            + (if (elim found [ none ↦ false | some client ↦ str_eq client id ])
                  && since calendar.day_start m
                then 1
                else 0))
        × ((entry_of id (count_client calendar m found entries)).month
            ≡ (entry_of id entries).month
              + (if (elim found [ none ↦ false | some client ↦ str_eq client id ])
                    && since calendar.month_start m
                  then 1
                  else 0))
  count_client-entry m none entries id = (omega arith, omega arith)
  count_client-entry m (some client) entries id = elim (Bool-cases (str_eq client id)) [
    | inl same ↦ ground (
      arith,
      rw same at (lookup-insert client id (counted m client entries) entries),
      eq_iff client id,
    )
    | inr other ↦
        ground (arith, rw other at (lookup-insert client id (counted m client entries) entries))
  ]

  pub tally-per_client :
      (messages : List SentMessage) (t : Tally) (id : String)
      → ((entry_of id (tally calendar sessions messages t).per_client).today
          ≡ (entry_of id t.per_client).today
            + count_if (λ m. is_for sessions id m && since calendar.day_start m) messages)
        × ((entry_of id (tally calendar sessions messages t).per_client).month
            ≡ (entry_of id t.per_client).month
              + count_if (λ m. is_for sessions id m && since calendar.month_start m) messages)
  unfolding tally
  tally-per_client [] t id = (omega arith, omega arith)
  tally-per_client (m ∷ messages) t id =
      let one = count_client-entry m (client_of sessions m) t.per_client id in
      let rest = tally-per_client messages (tally_message calendar sessions m t) id in
      (omega (arith, one.0, rest.0), omega (arith, one.1, rest.1))

  pub count_messages-totals :
      (messages : List SentMessage) (c : Counts)
      → ((count_messages calendar messages c).today
          ≡ c.today + count_if (since calendar.day_start) messages)
        × ((count_messages calendar messages c).month
            ≡ c.month + count_if (since calendar.month_start) messages)
  unfolding count_messages
  count_messages-totals [] c = (omega arith, omega arith)
  count_messages-totals (m ∷ messages) c =
      ground (arith, count_messages-totals messages (count_message calendar m c))

  pub count_messages-by_session :
      (messages : List SentMessage) (c : Counts) (key : String)
      → at key (count_messages calendar messages c).by_session
        ≡ at key c.by_session + count_if (λ m. str_eq m.session_id key) messages
  unfolding count_messages
  count_messages-by_session [] c key = omega arith
  count_messages-by_session (m ∷ messages) c key = omega (
    arith,
    count_messages-by_session messages (count_message calendar m c) key,
    at-bump m.session_id key c.by_session,
  )
