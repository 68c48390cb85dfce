-- ===== src/Server/Presence.antt =====
-- presence/status_manager.py
use g04_final_project_d_25_c.Prelude.{String, String_eq, or_else, [], ◌∷◌, is_some}
use g04_final_project_d_25_c.Dict
use g04_final_project_d_25_c.Exec.{Exec, gets, modify, when, ◌>>=◌, ◌>>◌, for_each}
use g04_final_project_d_25_c.Database.Users.{update_user_status}
use g04_final_project_d_25_c.Database.Friends.{list_friends}
use g04_final_project_d_25_c.Protocol.{string, status_update}
use g04_final_project_d_25_c.Server.State.{
  Server, UserStatus, online, offline, in_room, in_match, do_not_disturb, query, update_db,
}
use g04_final_project_d_25_c.Server.Connections
use g04_final_project_d_25_c.Server.Connections.{send}

-- `UserStatus.X.value`
unfoldable pub status_name : UserStatus → String
status_name online = "ONLINE"
status_name offline = "OFFLINE"
status_name in_room = "IN_ROOM"
status_name in_match = "IN_MATCH"
status_name do_not_disturb = "DO_NOT_DISTURB"

unfoldable pub notify_friends : String → UserStatus → Exec Server (Unit {0})
notify_friends username status = do
  friends ← query (list_friends username)
  for_each friends (λ f. do
    there ← gets (λ s. is_some (Connections.get f.friend_name s))
    when there (do
      send f.friend_name status_update
          (("user", string username) ∷ ("status", string (status_name status)) ∷ [])
      gets (λ _. tt)))

unfoldable pub set_status : String → UserStatus → Exec Server (Unit {0})
set_status username status = do
  modify (λ s. record s { status_map = Dict.put username status s.status_map })
  update_db (update_user_status username (status_name status))
  notify_friends username status

unfoldable pub get_status : String → Server → UserStatus
get_status username s = or_else (Dict.get username s.status_map) offline

unfoldable pub remove : String → Exec Server (Unit {0})
remove username = do
  modify (λ s. record s { status_map = Dict.pop username s.status_map })
  update_db (update_user_status username (status_name offline))
