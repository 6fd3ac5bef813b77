-- ===== src/Omega/Run.antt =====
-- The tables through any sequence of requests.
use wp_open_omega.Omega.{OmegaPlan, OmegaUser, OmegaTables, unique_violation, client_not_found}
use wp_open_omega.Omega.Clients.{is_missing}
use wp_open_omega.Omega.Accounts.{
  CreateOmegaPlanDto, UpdateOmegaPlanDto, CreateOmegaUserDto, UpdateOmegaUserDto, plan_clashes,
  save_plan, create_plan, changed_plan, update_plan_found, update_plan, user_clashes, save_user,
  create_user, changed_user, update_user_found, update_user,
}
use wp_open_omega.Omega.Requests.{
  OmegaRequest, post_client, put_client, post_plan, put_plan, post_user, put_user, assign, unassign,
  flag, sync, handle_request, run,
}
use wp_open_omega.Omega.Linked.{
  IsLinked, IsEmployed, guard-holds, is_missing-insert, is_missing_changed, create_client-IsLinked,
  update_client-IsLinked,
}
use wp_open_omega.Omega.Placed.{
  KeepsRest, assign_session-KeepsRest, unassign_session-KeepsRest,
  update_replacement_flag-KeepsRest, sync_sessions-ArePlaced,
}
use wp_open_omega.Common.{
  String, ◌≡◌, refl, sym, subst, false, Option, none, some, List, [], ◌∷◌, lookup, get_or_default,
  All-insert, lookup-All, Text,
}

save_plan-IsLinked :
    (id : String) (plan : OmegaPlan) (tables : OmegaTables)
    → IsLinked tables
    → IsLinked (save_plan id plan tables).1
save_plan-IsLinked id plan tables h =
    guard-holds IsLinked (plan_clashes id plan tables.plans) unique_violation tables _ h λ apart. (
      (λ key client e.
          let old = h.0 key client e in
          (is_missing-insert client.plan_id id plan tables.plans old.0, old.1)),
      h.1,
      h.2,
      h.3,
    )

create_plan-IsLinked :
    (id : String) (dto : CreateOmegaPlanDto) (tables : OmegaTables)
    → IsLinked tables
    → IsLinked (create_plan id dto tables).1
unfolding create_plan
create_plan-IsLinked id dto tables h = save_plan-IsLinked id _ tables h

update_plan_found-IsLinked :
    (id : String) (dto : UpdateOmegaPlanDto) (tables : OmegaTables) (found : Option OmegaPlan)
    → IsLinked tables
    → IsLinked (update_plan_found id dto tables found).1
update_plan_found-IsLinked id dto tables none h = h
update_plan_found-IsLinked id dto tables (some plan) h =
    save_plan-IsLinked id (changed_plan dto plan) tables h

update_plan-IsLinked :
    (id : String) (dto : UpdateOmegaPlanDto) (tables : OmegaTables)
    → IsLinked tables
    → IsLinked (update_plan id dto tables).1
unfolding update_plan
update_plan-IsLinked id dto tables h =
    update_plan_found-IsLinked id dto tables (lookup id tables.plans) h

save_user-IsLinked :
    (id : String) (user : OmegaUser) (tables : OmegaTables)
    → is_missing user.client_id tables.clients ≡ false
    → IsLinked tables
    → IsLinked (save_user id user tables).1
save_user-IsLinked id user tables m h =
    guard-holds IsLinked (user_clashes id user tables.users) unique_violation tables _ h
      λ apart. (h.0, All-insert (IsEmployed tables.clients) id user tables.users m h.1, h.2, h.3)

-- The writes of sessions.
KeepsRest-IsLinked :
    (before after : OmegaTables) → KeepsRest before after → IsLinked before → IsLinked after
KeepsRest-IsLinked before after k h = subst IsLinked (sym k.0) (h.0, h.1, k.1.0, k.1.1)

module _ (hash_password : Text → Text) (new_id : String → String) where
  create_user-IsLinked :
      (id : String) (dto : CreateOmegaUserDto) (tables : OmegaTables)
      → IsLinked tables
      → IsLinked (create_user hash_password id dto tables).1
  unfolding create_user
  create_user-IsLinked id dto tables h =
      guard-holds IsLinked (is_missing dto.client_id tables.clients) client_not_found tables _ h
        λ present. save_user-IsLinked id _ tables present h

  update_user_found-IsLinked :
      (id : String) (dto : UpdateOmegaUserDto) (tables : OmegaTables) (found : Option OmegaUser)
      → lookup id tables.users ≡ found
      → IsLinked tables
      → IsLinked (update_user_found hash_password id dto tables found).1
  update_user_found-IsLinked id dto tables none e h = h
  update_user_found-IsLinked id dto tables (some user) e h =
      guard-holds IsLinked (is_missing (get_or_default dto.client_id none) tables.clients)
        client_not_found tables _ h
        λ present.
          save_user-IsLinked id (changed_user hash_password dto user) tables
            (is_missing_changed dto.client_id user.client_id tables.clients present
              (lookup-All (IsEmployed tables.clients) id tables.users h.1 e))
            h

  update_user-IsLinked :
      (id : String) (dto : UpdateOmegaUserDto) (tables : OmegaTables)
      → IsLinked tables
      → IsLinked (update_user hash_password id dto tables).1
  unfolding update_user
  update_user-IsLinked id dto tables h =
      update_user_found-IsLinked id dto tables (lookup id tables.users) refl h

  handle-IsLinked :
      (request : OmegaRequest) (tables : OmegaTables)
      → IsLinked tables
      → IsLinked (handle_request hash_password new_id request tables)
  unfolding handle_request
  handle-IsLinked (post_client id now dto) tables h = create_client-IsLinked id now dto tables h
  handle-IsLinked (put_client id now dto) tables h = update_client-IsLinked id now dto tables h
  handle-IsLinked (post_plan id dto) tables h = create_plan-IsLinked id dto tables h
  handle-IsLinked (put_plan id dto) tables h = update_plan-IsLinked id dto tables h
  handle-IsLinked (post_user id dto) tables h = create_user-IsLinked id dto tables h
  handle-IsLinked (put_user id dto) tables h = update_user-IsLinked id dto tables h
  handle-IsLinked (assign id dto actor) tables h =
      KeepsRest-IsLinked tables _ (assign_session-KeepsRest id dto actor tables (h.2, h.3)) h
  handle-IsLinked (unassign id) tables h =
      KeepsRest-IsLinked tables _ (unassign_session-KeepsRest id tables (h.2, h.3)) h
  handle-IsLinked (flag id requested) tables h =
      KeepsRest-IsLinked tables _ (update_replacement_flag-KeepsRest id requested tables (h.2, h.3))
        h
  handle-IsLinked (sync now snapshots) tables h =
      let p =
        sync_sessions-ArePlaced new_id now tables.clients snapshots tables.sessions (h.2, h.3) in
      (h.0, h.1, p.0, p.1)

  -- After any sequence of requests on linked tables, synchronisations that break off included: every client has a subscription with its
  -- limits, and a plan that exists if it has one; the client of a user and of a session exists if
  -- there is one; a session's flag says whether it has a client; and no two sessions have one
  -- gateway id.
  pub run-IsLinked :
      (requests : List OmegaRequest) (tables : OmegaTables)
      → IsLinked tables
      → IsLinked (run hash_password new_id requests tables)
  unfolding run
  run-IsLinked [] tables h = h
  run-IsLinked (request ∷ requests) tables h =
      run-IsLinked requests (handle_request hash_password new_id request tables)
        (handle-IsLinked request tables h)
