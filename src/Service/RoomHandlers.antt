-- ===== src/Service/RoomHandlers.antt =====
-- server/service.py: the packets that make, join, leave and rule rooms.
use g04_final_project_d_25_c.Prelude.{
  pos, true, false, not, String, ◌==◌, String_eq, Option, none, some, [], ◌∷◌, join_text,
}
use g04_final_project_d_25_c.Dict
use g04_final_project_d_25_c.Exec.{Exec, value_error, pure, gets, modify, ensure, when, ◌>>=◌, ◌>>◌}
use g04_final_project_d_25_c.Database.Rooms as DbRooms
use g04_final_project_d_25_c.Protocol.{
  Packet, Value, string, text, null, boolean, number, system, stripped_field, field_or, truthy,
  py_int, optional_text,
}
use g04_final_project_d_25_c.Server.{Server, on_db, update_db}
use g04_final_project_d_25_c.Server.Connections.{send}
use g04_final_project_d_25_c.Server.RoomManager
use g04_final_project_d_25_c.Service.{
  user_room, set_user_room, lift, send_system, broadcast_system, leave_room, join_room, raise_if,
}
use g04_final_project_d_25_c.Service.Messages.{send_room_history}

unfoldable pub handle_join_room : String → Packet → Exec Server (Unit {0})
handle_join_room username packet = do
  let room_name = stripped_field "room" (text "") packet
  password ← lift (optional_text "password" packet)
  ensure (not (room_name == "")) (value_error "Room name is required to join.")
  old_room ← gets (user_room username)
  refused ← RoomManager.join_room room_name username password
  raise_if refused
  modify (set_user_room username room_name)
  send_system username ("You joined room '" ∷ room_name ∷ "'." ∷ []) room_name
  when (not (old_room == room_name)) (leave_room username old_room true)
  broadcast_system (username ∷ " joined " ∷ room_name ∷ "." ∷ []) room_name
  send_room_history username room_name

abbrev pub password_value : Option String → Value
password_value none = null
password_value (some p) = text p

unfoldable pub handle_create_room : String → Packet → Exec Server (Unit {0})
handle_create_room username packet = do
  let room_name = stripped_field "room" (text "") packet
  ensure (not (room_name == "")) (value_error "Room name is required.")
  let visibility = stripped_field "visibility" (text "public") packet
  max_capacity ← lift (py_int (field_or "max_capacity" (number (pos 50)) packet))
  let invite_only = truthy (field_or "invite_only" (boolean false) packet)
  password ← lift (optional_text "password" packet)
  created ← RoomManager.create_room room_name username visibility max_capacity invite_only password
  ensure created (value_error (join_text ("Room '" ∷ room_name ∷ "' already exists." ∷ [])))
  send_system username ("Room '" ∷ room_name ∷ "' created." ∷ []) "global"
  handle_join_room username (("room", text room_name) ∷ ("password", password_value password) ∷ [])

unfoldable pub handle_leave_room : String → Packet → Exec Server (Unit {0})
handle_leave_room username packet = do
  current_room ← gets (user_room username)
  ensure (not (current_room == "global")) (value_error "Cannot leave the global room.")
  leave_room username current_room false
  join_room username "global" none false

unfoldable pub handle_invite_user : String → Packet → Exec Server (Unit {0})
handle_invite_user username packet = do
  room_name ← gets (user_room username)
  let target = stripped_field "target" (text "") packet
  ensure (not (target == "")) (value_error "Target username is required for invitation.")
  owner ← RoomManager.is_owner room_name username
  ensure owner (value_error "Only the room owner may send invites.")
  RoomManager.invite_user room_name target
  on_db (DbRooms.invite_room_user room_name username target)
  send_system username (target ∷ " has been invited to " ∷ room_name ∷ "." ∷ []) "global"
  send target system (
      (
        "message",
        string (join_text ("You have been invited to " ∷ room_name ∷ " by " ∷ username ∷ "." ∷ [])),
      )
      ∷ [])
  pure tt

unfoldable pub handle_kick_user : String → Packet → Exec Server (Unit {0})
handle_kick_user username packet = do
  room_name ← gets (user_room username)
  let target = stripped_field "target" (text "") packet
  ensure (not (target == "")) (value_error "Target username is required to kick.")
  owner ← RoomManager.is_owner room_name username
  ensure owner (value_error "Only the room owner may kick users.")
  RoomManager.kick_user room_name target
  send_system username (target ∷ " has been removed from " ∷ room_name ∷ "." ∷ []) "global"
  send target system (
      (
        "message",
        string
            (join_text ("You have been kicked from " ∷ room_name ∷ " by " ∷ username ∷ "." ∷ [])),
      )
      ∷ [])
  current ← gets (λ s. Dict.get target s.user_rooms)
  when (elim current [ none ↦ false | some r ↦ r == room_name ])
      (join_room target "global" none false)

unfoldable pub handle_delete_room : String → Packet → Exec Server (Unit {0})
handle_delete_room username packet = do
  current ← gets (user_room username)
  let room_name = stripped_field "room" (text current) packet
  owner ← RoomManager.is_owner room_name username
  ensure owner (value_error "Only the room owner can delete a room.")
  RoomManager.delete_room room_name
  update_db (DbRooms.delete_room room_name)
  send_system username ("Room '" ∷ room_name ∷ "' was deleted." ∷ []) "global"
