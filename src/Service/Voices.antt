-- ===== src/Service/Voices.antt =====
-- server/service.py: voice sessions.
use g04_final_project_d_25_c.Prelude.{
  pos, true, false, ◌&&◌, ◌||◌, not, String, ◌==◌, String_eq, Option, none, some, or_else, [], ◌∷◌,
  is_some, if◌then◌else◌, join_text, not_positive, to_nat,
}
use g04_final_project_d_25_c.Dict
use g04_final_project_d_25_c.Exec.{Exec, value_error, pure, gets, modify, ensure, when, ◌>>=◌, ◌>>◌}
use g04_final_project_d_25_c.Protocol.{Packet, text, number, stripped_field, field_or, py_int}
use g04_final_project_d_25_c.Voice.Rooms.{
  VoiceRoom, VoiceRooms, add_to_room, remove_from_room, user_voice_room, set_muted, set_speaking,
}
use g04_final_project_d_25_c.Server.{Server}
use g04_final_project_d_25_c.Server.RoomManager
use g04_final_project_d_25_c.Service.{user_room, lift, send_system, broadcast_system}

unfoldable pub change_voice : (VoiceRooms → VoiceRooms) → Server → Server
change_voice f s = record s { voice_rooms = f s.voice_rooms }

-- `if old_voice_room and old_voice_room != room:` with what follows
unfoldable pub leave_other : String → String → Option String → Exec Server (Unit {0})
leave_other username room none = pure tt
leave_other username room (some old) = when (not (old == "") && not (old == room)) (do
  modify (change_voice (remove_from_room old username))
  broadcast_system (username ∷ " left voice in " ∷ old ∷ "." ∷ []) old)

unfoldable pub handle_voice_start : String → Packet → Exec Server (Unit {0})
handle_voice_start username packet = do
  current ← gets (user_room username)
  let room = stripped_field "room" (text current) packet
  port ← lift (py_int (field_or "udp_port" (number (pos 0)) packet))
  ensure (not (room == "" || not_positive port))
      (value_error "room and udp_port are required for VOICE_START.")
  member ← RoomManager.is_room_member room username
  ensure member (value_error (join_text ("You are not a member of room " ∷ room ∷ "." ∷ [])))
  old ← gets (λ s. user_voice_room username s.voice_rooms)
  leave_other username room old
  modify (change_voice (add_to_room room username (to_nat port)))
  send_system username ("Joined voice in room '" ∷ room ∷ "'." ∷ []) room
  broadcast_system (username ∷ " joined voice." ∷ []) room

-- `room or user_voice_room(username)`, with the empty text for none
abbrev pub room_to_stop : String → Option String → String
room_to_stop room current = if room == "" then or_else current "" else room

unfoldable pub handle_voice_stop : String → Packet → Exec Server (Unit {0})
handle_voice_stop username packet = do
  current ← gets (λ s. user_voice_room username s.voice_rooms)
  let room = room_to_stop (stripped_field "room" (text "") packet) current
  when (not (room == "")) (do
    modify (change_voice (remove_from_room room username))
    send_system username ("Left voice in room '" ∷ room ∷ "'." ∷ []) room
    broadcast_system (username ∷ " left voice." ∷ []) room)

-- The effect of a status on the room object that the manager holds.
abbrev pub change_room : String → (VoiceRoom → VoiceRoom) → VoiceRooms → VoiceRooms
change_room room f rooms = elim (Dict.get room rooms) [
  | none ↦ rooms
  | some r ↦ Dict.put room (f r) rooms
]

-- The chain of tests on `status`.
unfoldable pub apply_voice_status : String → String → String → Exec Server (Unit {0})
apply_voice_status username room status =
    if status == "muted"
    then (modify (change_voice (change_room room (set_muted username true)))
        >> broadcast_system (username ∷ " is muted." ∷ []) room)
    else if status == "unmuted"
    then (modify (change_voice (change_room room (set_muted username false)))
        >> broadcast_system (username ∷ " is unmuted." ∷ []) room)
    else if status == "speaking"
    then modify (change_voice (change_room room (set_speaking username true)))
    else if status == "idle"
    then modify (change_voice (change_room room (set_speaking username false)))
    else pure tt

unfoldable pub handle_voice_status : String → Packet → Exec Server (Unit {0})
handle_voice_status username packet = do
  let room = stripped_field "room" (text "") packet
  let status = stripped_field "status" (text "") packet
  ensure (not (room == "" || status == ""))
      (value_error "room and status are required for VOICE_STATUS.")
  held ← gets (λ s. is_some (Dict.get room s.voice_rooms))
  ensure held (value_error (join_text ("No active voice session in " ∷ room ∷ "." ∷ [])))
  apply_voice_status username room status
