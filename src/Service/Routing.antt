-- ===== src/Service/Routing.antt =====
-- server/service.py, route_packet: which handler a packet goes to, and what becomes of its errors.
use g04_final_project_d_25_c.Prelude.{
  String, ◌==◌, String_eq, Option, none, some, List, [], ◌∷◌, find_row, join_text,
}
use g04_final_project_d_25_c.Exec.{Exec, PyError, value_error, internal_error, catch}
use g04_final_project_d_25_c.Protocol.{
  Packet, PacketType, Value, null, text, wire_name, field_or, py_str, stripped_field,
}
use g04_final_project_d_25_c.Server.{Server, Env}
use g04_final_project_d_25_c.Server.FriendManager.{
  send_request, accept_request, reject_request, send_friend_list, remove_friend,
}
use g04_final_project_d_25_c.Service.{send_error, send_online_users}
use g04_final_project_d_25_c.Service.Messages.{
  handle_room_message, handle_private_message, handle_status_update,
}
use g04_final_project_d_25_c.Service.RoomHandlers.{
  handle_create_room, handle_join_room, handle_leave_room, handle_invite_user, handle_kick_user,
  handle_delete_room,
}
use g04_final_project_d_25_c.Service.Matches.{handle_matchmake}
use g04_final_project_d_25_c.Service.Files.{
  handle_file_start, handle_file_chunk, handle_file_end, handle_image_upload,
}
use g04_final_project_d_25_c.Service.Voices.{
  handle_voice_start, handle_voice_stop, handle_voice_status,
}
use g04_final_project_d_25_c.Service.Clients.{handle_reconnect}
use g04_final_project_d_25_c.Service.Broadcasts.{handle_schedule_broadcast}

-- The types that `route_packet` tests for.
abbrev pub routed : List PacketType
routed =
    PacketType.message ∷ PacketType.private_message ∷ PacketType.create_room ∷ PacketType.join_room
    ∷ PacketType.leave_room ∷ PacketType.invite_user ∷ PacketType.kick_user ∷ PacketType.delete_room
    ∷ PacketType.get_friends ∷ PacketType.add_friend ∷ PacketType.accept_friend
    ∷ PacketType.reject_friend ∷ PacketType.remove_friend ∷ PacketType.get_online_users
    ∷ PacketType.schedule_broadcast ∷ PacketType.update_status ∷ PacketType.matchmake
    ∷ PacketType.file_start ∷ PacketType.file_chunk ∷ PacketType.file_end ∷ PacketType.image
    ∷ PacketType.reconnect ∷ PacketType.voice_start ∷ PacketType.voice_stop
    ∷ PacketType.voice_status ∷ []

-- The first type of a list whose name is the value.
unfoldable pub type_among : List PacketType → Value → Option PacketType
type_among types (text name) = find_row (λ t. wire_name t == name) types
type_among types _ = none

abbrev pub friend_field : Packet → String
friend_field packet = stripped_field "friend" (text "") packet

unfoldable pub unknown_type : String → Packet → Exec Server (Unit {0})
unknown_type username packet =
    send_error username
      (join_text ("Unknown packet type: " ∷ py_str (field_or "type" null packet) ∷ []))

-- The branches of the `if` chain.
unfoldable pub dispatch : Env → Option PacketType → String → Packet → Exec Server (Unit {0})
dispatch env (some PacketType.message) u p = handle_room_message u p
dispatch env (some PacketType.private_message) u p = handle_private_message u p
dispatch env (some PacketType.create_room) u p = handle_create_room u p
dispatch env (some PacketType.join_room) u p = handle_join_room u p
dispatch env (some PacketType.leave_room) u p = handle_leave_room u p
dispatch env (some PacketType.invite_user) u p = handle_invite_user u p
dispatch env (some PacketType.kick_user) u p = handle_kick_user u p
dispatch env (some PacketType.delete_room) u p = handle_delete_room u p
dispatch env (some PacketType.get_friends) u p = send_friend_list u
dispatch env (some PacketType.add_friend) u p = send_request u (friend_field p)
dispatch env (some PacketType.accept_friend) u p = accept_request u (friend_field p)
dispatch env (some PacketType.reject_friend) u p = reject_request u (friend_field p)
dispatch env (some PacketType.remove_friend) u p = remove_friend u (friend_field p)
dispatch env (some PacketType.get_online_users) u p = send_online_users u
dispatch env (some PacketType.schedule_broadcast) u p = handle_schedule_broadcast env u p
dispatch env (some PacketType.update_status) u p = handle_status_update u p
dispatch env (some PacketType.matchmake) u p = handle_matchmake env u
dispatch env (some PacketType.file_start) u p = handle_file_start u p
dispatch env (some PacketType.file_chunk) u p = handle_file_chunk env u p
dispatch env (some PacketType.file_end) u p = handle_file_end env u p
dispatch env (some PacketType.image) u p = handle_image_upload env u p
dispatch env (some PacketType.reconnect) u p = handle_reconnect u p
dispatch env (some PacketType.voice_start) u p = handle_voice_start u p
dispatch env (some PacketType.voice_stop) u p = handle_voice_stop u p
dispatch env (some PacketType.voice_status) u p = handle_voice_status u p
dispatch env _ u p = unknown_type u p

abbrev pub error_text : PyError → String
error_text (value_error e) = e
error_text internal_error = "Internal server error"

unfoldable pub route_packet : Env → Packet → String → Exec Server (Unit {0})
route_packet env packet username =
    catch (dispatch env (type_among routed (field_or "type" null packet)) username packet)
      (λ e. send_error username (error_text e))
