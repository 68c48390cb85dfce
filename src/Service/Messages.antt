-- ===== src/Service/Messages.antt =====
-- server/service.py: chat messages, presence and online users.
use g04_final_project_d_25_c.Prelude.{
  ◌||◌, not, String, ◌==◌, String_eq, none, some, List, [], ◌∷◌, is_some, if◌then◌else◌, join_text,
}
use g04_final_project_d_25_c.Exec.{Exec, value_error, gets, ensure, ◌>>=◌, ◌>>◌}
use g04_final_project_d_25_c.Database.Users.{find_user_id}
use g04_final_project_d_25_c.Database.Messages.{HistoryEntry, save_message, fetch_room_messages}
use g04_final_project_d_25_c.Protocol.{
  Packet, string, history, HistoryLine, text, private_message, room_history, stripped_field,
}
use g04_final_project_d_25_c.Server.{
  Server, UserStatus, online, offline, in_room, in_match, do_not_disturb, on_db, query, timestamp,
}
use g04_final_project_d_25_c.Server.Connections.{send}
use g04_final_project_d_25_c.Server.Presence.{set_status, status_name}
use g04_final_project_d_25_c.Server.RoomManager
use g04_final_project_d_25_c.Service.{user_room, send_packet, send_system, broadcast_room_message}

unfoldable pub handle_room_message : String → Packet → Exec Server (Unit {0})
handle_room_message username packet = do
  room ← gets (user_room username)
  let body = stripped_field "message" (text "") packet
  ensure (not (body == "")) (value_error "Cannot send an empty message.")
  member ← RoomManager.is_room_member room username
  ensure member (value_error (join_text ("You are not a member of room " ∷ room ∷ "." ∷ [])))
  on_db (save_message username body "ROOM" (some room) none)
  broadcast_room_message room username body

unfoldable pub handle_private_message : String → Packet → Exec Server (Unit {0})
handle_private_message username packet = do
  let target = stripped_field "target" (text "") packet
  let body = stripped_field "message" (text "") packet
  ensure (not (target == "" || body == ""))
      (value_error "Target and message are required for private messaging.")
  known ← query (find_user_id target)
  ensure (is_some known)
      (value_error (join_text ("Target user '" ∷ target ∷ "' does not exist." ∷ [])))
  on_db (save_message username body "PRIVATE" none (some target))
  now ← gets timestamp
  delivered ← send target private_message (
      ("sender", string username)
      ∷ ("target", string target)
      ∷ ("message", string body)
      ∷ ("timestamp", string now)
      ∷ [])
  if delivered
      then send_system username ("Message delivered to " ∷ target ∷ "." ∷ []) "global"
      else send_system username (target ∷ " is offline. Message stored for later delivery." ∷ [])
          "global"

abbrev pub history_lines : List HistoryEntry → List HistoryLine
history_lines [] = []
history_lines (e ∷ es) =
    record { sender = e.sender; content = e.content; timestamp = e.timestamp } ∷ history_lines es

unfoldable pub send_room_history : String → String → Exec Server (Unit {0})
send_room_history username room_name = do
  rows ← query (fetch_room_messages room_name 50)
  send_packet username room_history
      (("room", string room_name) ∷ ("history", history (history_lines rows)) ∷ [])

-- `UserStatus(value)`, or ONLINE where there is none of that name
unfoldable pub parse_status : String → UserStatus
parse_status name =
    if name == "ONLINE"
    then online
    else if name == "OFFLINE"
    then offline
    else if name == "IN_ROOM"
    then in_room
    else if name == "IN_MATCH"
    then in_match
    else if name == "DO_NOT_DISTURB"
    then do_not_disturb
    else online

unfoldable pub handle_status_update : String → Packet → Exec Server (Unit {0})
handle_status_update username packet = do
  let status = parse_status (stripped_field "status" (text "ONLINE") packet)
  set_status username status
  send_system username ("Your status is now " ∷ status_name status ∷ "." ∷ []) "global"
