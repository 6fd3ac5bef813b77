-- ===== src/Omega/Linked.antt =====
-- What the tables of Omega keep through every request: references, flags and subscriptions.
use wp_open_omega.Omega.{
  OmegaWhatsappSession, OmegaClient, OmegaSubscription, OmegaUser, OmegaTables, Reply, refused,
  named, OmegaError,
}
use wp_open_omega.Omega.Clients.{
  CreateOmegaClientDto, UpdateOmegaClientDto, is_missing, upserted, upsert_subscription,
  save_client, client_clashes, created_client, changed_client, create_client, update_client_found,
  update_client,
}
use wp_open_omega.Common.{
  ℕ, String, ◌≡◌, refl, subst, inl, inr, Bool, true, false, not, Option, none, some, List, arith,
  if◌then◌else◌, is_some, str_eq, lookup, insert, has_key, lookup-insert, has_key-insert,
  Bool-cases, Option-cases, get_or_default, All, All-mono, IsKeyed, some-injective,
}

-- Writing a row leaves no reference dangling.
pub is_missing-insert {ℓ} :
    {V : Type ℓ} (reference : Option String) (key : String) (v : V) (rows : List (String × V))
    → is_missing reference rows ≡ false
    → is_missing reference (insert key v rows) ≡ false
is_missing-insert reference key v rows h = elim (Option-cases (named reference)) [
  | inl absent ↦ rw (absent, is_missing) refl
  | inr (id, present) ↦
      let there : not (has_key id rows) ≡ false = rw (present, is_missing) at h in
      rw (present, is_missing) (ground (arith, has_key-insert key id v rows, there))
]

-- The subscription of a client has the client's limits.
abbrev pub Matches : OmegaClient → Option OmegaSubscription → Type 0
Matches client none = ⊥
Matches client (some subscription) =
    (subscription.monthly_message_limit ≡ client.monthly_message_limit)
    × (subscription.whatsapp_account_limit ≡ client.whatsapp_account_limit)

-- A session's flag says whether it has a client, and the client exists.
abbrev pub IsPlaced : List (String × OmegaClient) → String × OmegaWhatsappSession → Type 0
IsPlaced clients row =
    (row.1.assigned_to_client ≡ is_some (named row.1.client_id))
    × (is_missing row.1.client_id clients ≡ false)

abbrev pub IsEmployed : List (String × OmegaClient) → String × OmegaUser → Type 0
IsEmployed clients row = is_missing row.1.client_id clients ≡ false

abbrev pub IsSubscribed : OmegaTables → Type 0
IsSubscribed tables =
    (id : String) (client : OmegaClient)
    → lookup id tables.clients ≡ some client
    → (is_missing client.plan_id tables.plans ≡ false)
      × Matches client (lookup id tables.subscriptions)

abbrev pub IsLinked : OmegaTables → Type 0
IsLinked tables =
    IsSubscribed tables
    × All (IsEmployed tables.clients) tables.users
    × All (IsPlaced tables.clients) tables.sessions
    × IsKeyed tables.sessions

upserted-Matches :
    (now : ℕ) (client : OmegaClient) (current : Option OmegaSubscription)
    → Matches client (
        some (
          upserted now client.plan_id client.monthly_message_limit client.whatsapp_account_limit
            current))
upserted-Matches now client none = (refl, refl)
upserted-Matches now client (some current) = (refl, refl)

save_client-IsSubscribed :
    (now : ℕ) (id : String) (client : OmegaClient) (tables : OmegaTables)
    → is_missing client.plan_id tables.plans ≡ false
    → IsSubscribed tables
    → IsSubscribed (save_client now id client tables)
save_client-IsSubscribed now id client tables p h other found e =
    elim (Bool-cases (str_eq id other)) [
      | inl same ↦
          let here : client ≡ found =
            some-injective (rw (lookup-insert id other client tables.clients, same) at e) in
          subst
            (λ c.
              (is_missing c.plan_id tables.plans ≡ false)
              × Matches c (lookup other (upsert_subscription now id client tables.subscriptions)))
            here
            (
              p,
              rw
                  (
                    lookup-insert id other
                        (upserted now client.plan_id client.monthly_message_limit
                          client.whatsapp_account_limit (lookup id tables.subscriptions))
                        tables.subscriptions,
                    same,
                  )
                  (upserted-Matches now client (lookup id tables.subscriptions)),
            )
      | inr apart ↦
          rw
            (
              lookup-insert id other
                  (upserted now client.plan_id client.monthly_message_limit
                    client.whatsapp_account_limit (lookup id tables.subscriptions))
                  tables.subscriptions,
              apart,
            )
            (h other found (rw (lookup-insert id other client tables.clients, apart) at e))
    ]

save_client-IsLinked :
    (now : ℕ) (id : String) (client : OmegaClient) (tables : OmegaTables)
    → is_missing client.plan_id tables.plans ≡ false
    → IsLinked tables
    → IsLinked (save_client now id client tables)
save_client-IsLinked now id client tables p h = (
  save_client-IsSubscribed now id client tables p h.0,
  All-mono (IsEmployed tables.clients) _ tables.users
      (λ row g. is_missing-insert row.1.client_id id client tables.clients g) h.1,
  All-mono (IsPlaced tables.clients) _ tables.sessions
      (λ row g. (g.0, is_missing-insert row.1.client_id id client tables.clients g.1)) h.2,
  h.3,
)

-- A request that a check refuses leaves the tables as they are.
pub guard-holds {ℓ κ} :
    {A : Type ℓ} (P : OmegaTables → Type κ) (test : Bool) (e : OmegaError) (tables : OmegaTables)
    (rest : Reply A × OmegaTables)
    → P tables
    → (test ≡ false → P rest.1)
    → P (if test then (refused e, tables) else rest).1
guard-holds P true e tables rest h k = h
guard-holds P false e tables rest h k = k refl

pub create_client-IsLinked :
    (id : String) (now : ℕ) (dto : CreateOmegaClientDto) (tables : OmegaTables)
    → IsLinked tables
    → IsLinked (create_client id now dto tables).1
unfolding create_client
create_client-IsLinked id now dto tables h =
    guard-holds IsLinked (is_missing dto.plan_id tables.plans) _ tables _ h λ present.
      guard-holds IsLinked (client_clashes id (created_client dto) tables.clients) _ tables _ h
        λ apart. save_client-IsLinked now id (created_client dto) tables present h

-- A reference that a request changes or keeps.
pub is_missing_changed {ℓ} :
    {V : Type ℓ} (dto : Option (Option String)) (old : Option String) (plans : List (String × V))
    → is_missing (get_or_default dto none) plans ≡ false
    → is_missing old plans ≡ false
    → is_missing (get_or_default dto old) plans ≡ false
is_missing_changed none old plans h k = k
is_missing_changed (some new) old plans h k = h

update_client_found-IsLinked :
    (id : String) (now : ℕ) (dto : UpdateOmegaClientDto) (tables : OmegaTables)
    (found : Option OmegaClient)
    → lookup id tables.clients ≡ found
    → IsLinked tables
    → IsLinked (update_client_found id now dto tables found).1
update_client_found-IsLinked id now dto tables none e h = h
update_client_found-IsLinked id now dto tables (some client) e h =
    guard-holds IsLinked (is_missing (get_or_default dto.plan_id none) tables.plans) _ tables _ h
      λ present.
        guard-holds IsLinked (client_clashes id (changed_client dto client) tables.clients) _ tables
          _ h
          λ apart.
            save_client-IsLinked now id (changed_client dto client) tables
              (is_missing_changed dto.plan_id client.plan_id tables.plans present
                (h.0 id client e).0)
              h

pub update_client-IsLinked :
    (id : String) (now : ℕ) (dto : UpdateOmegaClientDto) (tables : OmegaTables)
    → IsLinked tables
    → IsLinked (update_client id now dto tables).1
unfolding update_client
update_client-IsLinked id now dto tables h =
    update_client_found-IsLinked id now dto tables (lookup id tables.clients) refl h
