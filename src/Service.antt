-- ===== src/Service.antt =====
-- server/service.py: the helpers that the packet handlers share. The handlers are in the modules
-- below, and `Routing` has the choice between them.
pub mod Messages
pub mod RoomHandlers
pub mod Matches
pub mod Files
pub mod Voices
pub mod Clients
pub mod Routing
pub mod Handshake
pub mod Reach
pub mod Broadcasts
pub mod Closed
use g04_final_project_d_25_c.Prelude.{
  Bool, true, false, ◌&&◌, ◌||◌, not, String, ◌==◌, String_eq, Option, none, some, or_else, List,
  [], ◌∷◌, if◌then◌else◌, is_some, join_text,
}
use g04_final_project_d_25_c.Dict
use g04_final_project_d_25_c.Dict.{Dict, has}
use g04_final_project_d_25_c.Exec.{
  Result, ok, err, Exec, PyError, value_error, internal_error, pure, raise, gets, modify, ensure,
  when, ◌>>=◌, ◌>>◌, for_each,
}
use g04_final_project_d_25_c.Database.Rooms as DbRooms
use g04_final_project_d_25_c.Protocol.{
  PacketType, Field, string, names, system, error, message, get_online_users,
}
use g04_final_project_d_25_c.Server.{Server, on_db, query, update_db, timestamp}
use g04_final_project_d_25_c.Server.Connections.{send, broadcast, list_usernames}
use g04_final_project_d_25_c.Server.RoomManager

-- `self.user_rooms.get(username, "global")`
abbrev pub user_room : String → Server → String
user_room username s = or_else (Dict.get username s.user_rooms) "global"

abbrev pub set_user_room : String → String → Server → Server
set_user_room username room s = record s { user_rooms = Dict.put username room s.user_rooms }

-- A function that may raise, called by a method.
unfoldable pub lift {κ} : {A : Type κ} → Result A → Exec Server A
lift (ok a) = pure a
lift (err c) = raise c

-- `send` is called with `timestamp=` and `sender=` beside the fields: to name one of them again is a
-- TypeError.
unfoldable pub send_packet : String → PacketType → Dict String Field → Exec Server (Unit {0})
send_packet username kind fields = do
  ensure (not (has "timestamp" fields || has "sender" fields)) internal_error
  now ← gets timestamp
  send username kind (("timestamp", string now) ∷ ("sender", string "server") ∷ fields)
  pure tt

unfoldable pub send_system : String → List String → String → Exec Server (Unit {0})
send_system username pieces room =
    send_packet username system
      (("room", string room) ∷ ("message", string (join_text pieces)) ∷ [])

unfoldable pub send_error : String → String → Exec Server (Unit {0})
send_error username text = send_packet username error (("message", string text) ∷ [])

unfoldable pub broadcast_room_message : String → String → String → Exec Server (Unit {0})
broadcast_room_message room sender text = do
  members ← RoomManager.get_members room
  now ← gets timestamp
  broadcast members message (
      ("sender", string sender)
      ∷ ("room", string room)
      ∷ ("message", string text)
      ∷ ("timestamp", string now)
      ∷ [])

unfoldable pub broadcast_system : List String → String → Exec Server (Unit {0})
broadcast_system pieces room = do
  members ← RoomManager.get_members room
  now ← gets timestamp
  broadcast members system (
      ("room", string room)
      ∷ ("message", string (join_text pieces))
      ∷ ("timestamp", string now)
      ∷ [])

-- `send_online_users()`, to everybody, and `send_online_users(username)`
unfoldable pub broadcast_online_users : Exec Server (Unit {0})
broadcast_online_users = do
  users ← gets list_usernames
  broadcast users get_online_users (("online_users", names users) ∷ [])

unfoldable pub send_online_users : String → Exec Server (Unit {0})
send_online_users username = do
  users ← gets list_usernames
  if username == ""
      then broadcast_online_users
      else send_packet username get_online_users (("online_users", names users) ∷ [])

-- The part of `leave_room` for a member.
unfoldable pub leave_as_member : String → String → Bool → Exec Server (Unit {0})
leave_as_member username room_name silent = do
  RoomManager.leave_room room_name username
  update_db (DbRooms.remove_room_member room_name username)
  modify (λ s. elim (Dict.get username s.user_rooms) [
    | none ↦ s
    | some current ↦ if current == room_name then set_user_room username "global" s else s
  ])
  when (not silent) (do
    send_system username ("You left " ∷ room_name ∷ "." ∷ []) room_name
    broadcast_system (username ∷ " left " ∷ room_name ∷ "." ∷ []) room_name)

unfoldable pub leave_room : String → String → Bool → Exec Server (Unit {0})
leave_room username room_name silent = do
  member ← RoomManager.is_room_member room_name username
  when member (leave_as_member username room_name silent)

-- `if error: raise ValueError(error)`
abbrev pub raise_if : Option String → Exec Server (Unit {0})
raise_if none = pure tt
raise_if (some e) = raise (value_error e)

unfoldable pub join_room : String → String → Option String → Bool → Exec Server (Unit {0})
join_room username room_name password announce = do
  refused ← RoomManager.join_room room_name username password
  raise_if refused
  modify (set_user_room username room_name)
  when announce (broadcast_system (username ∷ " joined " ∷ room_name ∷ "." ∷ []) room_name)
