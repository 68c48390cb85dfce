-- ===== src/Service/Clients.antt =====
-- server/service.py: a client that is registered, restored or gone.
pub mod Pending
use g04_final_project_d_25_c.Prelude.{
  Bool, true, false, not, String, ◌==◌, String_eq, Option, none, some, List, [], ◌∷◌, is_some,
  is_none, if◌then◌else◌, join_text,
}
use g04_final_project_d_25_c.Dict
use g04_final_project_d_25_c.Exec.{
  Exec, value_error, pure, raise, gets, modify, ensure, require, when, ◌>>=◌, ◌>>◌, for_each,
}
use g04_final_project_d_25_c.Database.Users.{get_or_create_user}
use g04_final_project_d_25_c.Database.Rooms as DbRooms
use g04_final_project_d_25_c.Database.Friends.{list_pending_friend_requests}
use g04_final_project_d_25_c.Protocol.{
  Packet, string, text, friend_request, session_ack, stripped_field,
}
use g04_final_project_d_25_c.Voice.Rooms.{remove_from_room, user_voice_room}
use g04_final_project_d_25_c.Server.{Server, online, on_db, query, update_db}
use g04_final_project_d_25_c.Server.Connections
use g04_final_project_d_25_c.Server.Presence
use g04_final_project_d_25_c.Server.Presence.{set_status}
use g04_final_project_d_25_c.Server.RoomManager
use g04_final_project_d_25_c.Server.Sessions.{Restored, restore_session, end_session}
use g04_final_project_d_25_c.Server.Matchmaker.{leave_queue}
use g04_final_project_d_25_c.Service.{
  user_room, set_user_room, send_packet, send_system, broadcast_system, broadcast_online_users,
}
use g04_final_project_d_25_c.Service.Voices.{change_voice}

unfoldable pub pending_packet : String → String → Exec Server (Unit {0})
pending_packet username sender = send_packet username friend_request (
    ("sender", string sender)
    ∷ (
      "message",
      string (join_text ("You have a pending friend request from " ∷ sender ∷ "." ∷ [])),
    )
    ∷ [])

unfoldable pub send_pending_friend_requests : String → Exec Server (Unit {0})
send_pending_friend_requests username = do
  senders ← query (list_pending_friend_requests username)
  for_each senders (pending_packet username)

abbrev pub failed_to_join : String → String → String
failed_to_join room e = join_text ("Failed to join room " ∷ room ∷ ": " ∷ e ∷ [])

-- `if error: raise ValueError(…)`
abbrev pub raise_failed : String → Option String → Exec Server (Unit {0})
raise_failed room none = pure tt
raise_failed room (some e) = raise (value_error (failed_to_join room e))

unfoldable pub register_client : String → Bool → Exec Server (Unit {0})
register_client username skip_welcome = do
  on_db (get_or_create_user username)
  set_status username online
  known ← gets (λ s. is_some (Dict.get username s.user_rooms))
  when (not known) (modify (set_user_room username "global"))
  room ← gets (user_room username)
  refused ← RoomManager.join_room room username none
  raise_failed room refused
  when (not skip_welcome) (do
    send_system username ("Welcome to Convox, " ∷ username ∷ "!" ∷ []) room
    broadcast_system (username ∷ " joined " ∷ room ∷ "." ∷ []) room
    broadcast_online_users
    send_pending_friend_requests username)

-- `if voice_room: remove_from_room(voice_room, username)`
abbrev pub quit_voice : String → Option String → Server → Server
quit_voice username none s = s
quit_voice username (some room) s =
    if room == "" then s else change_voice (remove_from_room room username) s

unfoldable pub unregister_client : String → Exec Server (Unit {0})
unregister_client username = do
  modify (Connections.remove username)
  modify (leave_queue username)
  current_room ← gets (user_room username)
  RoomManager.leave_room current_room username
  update_db (DbRooms.remove_room_member current_room username)
  Presence.remove username
  end_session username
  modify (λ s. record s { user_rooms = Dict.pop username s.user_rooms })
  voice_room ← gets (λ s. user_voice_room username s.voice_rooms)
  modify (quit_voice username voice_room)
  broadcast_system (username ∷ " disconnected." ∷ []) current_room
  broadcast_online_users

unfoldable pub handle_reconnect : String → Packet → Exec Server (Unit {0})
handle_reconnect username packet = do
  let token = stripped_field "session_token" (text "") packet
  ensure (not (token == "")) (value_error "session_token is required for reconnect.")
  found ← restore_session token
  session ← require found (value_error "Unable to restore session. Please log in again.")
  modify (set_user_room session.username session.room_name)
  register_client session.username true
  send_packet session.username session_ack
      (("session_token", string token) ∷ ("room", string session.room_name) ∷ [])
  send_system session.username
      ("Reconnected to session and restored room " ∷ session.room_name ∷ "." ∷ []) session.room_name
