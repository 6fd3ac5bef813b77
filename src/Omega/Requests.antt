-- ===== src/Omega/Requests.antt =====
-- The requests of the administration as steps on the tables: the routes of
-- src/modules/omega/omega-admin.controller.ts that write, one after another.
use wp_open_omega.Omega.{OmegaUserRole, OmegaTables}
use wp_open_omega.Omega.Sessions.{
  AssignOmegaSessionDto, assign_session, unassign_session, update_replacement_flag,
}
use wp_open_omega.Omega.Clients.{
  CreateOmegaClientDto, UpdateOmegaClientDto, create_client, update_client,
}
use wp_open_omega.Omega.Accounts.{
  CreateOmegaPlanDto, UpdateOmegaPlanDto, CreateOmegaUserDto, UpdateOmegaUserDto, create_plan,
  update_plan, create_user, update_user,
}
use wp_open_omega.Omega.Sync.{OpenwaSessionSnapshot, sync_sessions}
use wp_open_omega.Common.{ℕ, String, Bool, List, [], ◌∷◌, Text}

-- Each with the id, the role and the clock's reading that its handler works with.
pub data OmegaRequest : Type 0 where
  post_client : String → ℕ → CreateOmegaClientDto → OmegaRequest
  put_client : String → ℕ → UpdateOmegaClientDto → OmegaRequest
  post_plan : String → CreateOmegaPlanDto → OmegaRequest
  put_plan : String → UpdateOmegaPlanDto → OmegaRequest
  post_user : String → CreateOmegaUserDto → OmegaRequest
  put_user : String → UpdateOmegaUserDto → OmegaRequest
  assign : String → AssignOmegaSessionDto → OmegaUserRole → OmegaRequest
  unassign : String → OmegaRequest
  flag : String → Bool → OmegaRequest
  sync : ℕ → List OpenwaSessionSnapshot → OmegaRequest

module _ (hash_password : Text → Text) (new_id : String → String) where
  unfoldable pub handle_request : OmegaRequest → OmegaTables → OmegaTables
  handle_request (post_client id now dto) tables = (create_client id now dto tables).1
  handle_request (put_client id now dto) tables = (update_client id now dto tables).1
  handle_request (post_plan id dto) tables = (create_plan id dto tables).1
  handle_request (put_plan id dto) tables = (update_plan id dto tables).1
  handle_request (post_user id dto) tables = (create_user hash_password id dto tables).1
  handle_request (put_user id dto) tables = (update_user hash_password id dto tables).1
  handle_request (assign id dto actor) tables = (assign_session id dto actor tables).1
  handle_request (unassign id) tables = (unassign_session id tables).1
  handle_request (flag id requested) tables = (update_replacement_flag id requested tables).1
  handle_request (sync now snapshots) tables = record tables {
    sessions = (sync_sessions new_id now snapshots tables.sessions).0;
  }

  unfoldable pub run : List OmegaRequest → OmegaTables → OmegaTables
  run [] tables = tables
  run (request ∷ requests) tables = run requests (handle_request request tables)
