-- ===== src/Server/Sessions.antt =====
-- server/session_manager.py
pub mod Laws
use g04_final_project_d_25_c.Prelude.{
  String, String_eq, Bool, true, false, not, ◌==◌, Option, none, some, if◌then◌else◌,
}
use g04_final_project_d_25_c.Dict
use g04_final_project_d_25_c.Exec.{Exec, pure, gets, modify, when, ◌>>=◌, ◌>>◌}
use g04_final_project_d_25_c.Database.{Database, SessionRow}
use g04_final_project_d_25_c.Database.Sessions as DbSessions
use g04_final_project_d_25_c.Server.State.{Server, Env, query, update_db}

unfoldable pub create_session : Env → String → String → Exec Server String
create_session env username room_name = do
  update_db (DbSessions.create_session env.uuid username room_name)
  modify (λ s. record s { sessions = Dict.put username env.uuid s.sessions })
  pure env.uuid

pub record Restored : Type 0 where
  pub username : String
  pub room_name : String
  pub session_token : String

abbrev pub refresh_if : Option SessionRow → String → Database → Database
refresh_if none token db = db
refresh_if (some r) token db = DbSessions.refresh_session token db

abbrev pub restored : Option SessionRow → String → Option Restored
restored none token = none
restored (some r) token =
    some (record { username = r.username; room_name = r.room_name; session_token = token })

unfoldable pub restore_session : String → Exec Server (Option Restored)
restore_session token = do
  update_db (DbSessions.expire_sessions_older_than 15)
  session ← query (DbSessions.get_session token)
  update_db (refresh_if session token)
  pure (restored session token)

-- `if session_token:`, with the statement that follows
abbrev pub deactivate_if : Option String → Database → Database
deactivate_if none db = db
deactivate_if (some token) db = if token == "" then db else DbSessions.deactivate_session token db

unfoldable pub end_session : String → Exec Server (Unit {0})
end_session username = do
  token ← gets (λ s. Dict.get username s.sessions)
  modify (λ s. record s { sessions = Dict.pop username s.sessions })
  update_db (deactivate_if token)
