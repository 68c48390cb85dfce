-- ===== src/Gui/Controller/Dispatch.antt =====
-- A request of the graphical client, from its controller to the handler of the server.
use g04_final_project_d_25_c.Prelude.{
  String, Option, none, some, or_else, pos, [], ◌∷◌, ◌++◌, ◌≡◌, refl, strip,
}
use g04_final_project_d_25_c.Exec.{Exec}
use g04_final_project_d_25_c.Protocol.{
  Packet, PacketType, null, text, number, field_or, wire_name, py_str, stripped_field,
}
use g04_final_project_d_25_c.Server.{Server, Env}
use g04_final_project_d_25_c.Server.FriendManager
use g04_final_project_d_25_c.Server.FriendManager.{
  send_request, accept_request, reject_request, send_friend_list,
}
use g04_final_project_d_25_c.Service.{send_online_users}
use g04_final_project_d_25_c.Service.Messages.{
  handle_room_message, handle_private_message, handle_status_update,
}
use g04_final_project_d_25_c.Service.RoomHandlers.{
  handle_create_room, handle_join_room, handle_leave_room, handle_invite_user, handle_kick_user,
  handle_delete_room,
}
use g04_final_project_d_25_c.Service.Voices.{
  handle_voice_start, handle_voice_stop, handle_voice_status,
}
use g04_final_project_d_25_c.Service.Clients.{handle_reconnect}
use g04_final_project_d_25_c.Service.Routing.{dispatch, type_among, routed}
use g04_final_project_d_25_c.Dict.{get}
use g04_final_project_d_25_c.Gui.Worker
use g04_final_project_d_25_c.Gui.Worker.{TcpWorker, Link, ready, send_raw, packet_of}
use g04_final_project_d_25_c.Gui.Controller.Requests.{
  Request, perform, login, register_account, reconnect, send_message, send_private_message,
  join_room, leave_room, create_room, delete_room, add_friend, accept_friend, reject_friend,
  remove_friend, get_friends, get_online_users, update_status, invite_user, kick_user,
  send_voice_start, send_voice_stop, send_voice_status,
}

-- What the server is to do for a request that came as the packet; a login and a registration belong to
-- the handshake, which comes before.
abbrev pub meant : Request → Option (String → Packet → Exec Server (Unit {0}))
meant (login username password) = none
meant (register_account username password) = none
meant (reconnect token) = some (λ u p. handle_reconnect u p)
meant (send_message room message) = some (λ u p. handle_room_message u p)
meant (send_private_message target message) = some (λ u p. handle_private_message u p)
meant (join_room room password) = some (λ u p. handle_join_room u p)
meant (leave_room room) = some (λ u p. handle_leave_room u p)
meant (create_room room visibility max_capacity) = some (λ u p. handle_create_room u p)
meant (delete_room room) = some (λ u p. handle_delete_room u p)
meant (add_friend friend) = some (λ u p. send_request u (strip friend))
meant (accept_friend friend) = some (λ u p. accept_request u (strip friend))
meant (reject_friend friend) = some (λ u p. reject_request u (strip friend))
meant (remove_friend friend) = some (λ u p. FriendManager.remove_friend u (strip friend))
meant get_friends = some (λ u p. send_friend_list u)
meant get_online_users = some (λ u p. send_online_users u)
meant (update_status status) = some (λ u p. handle_status_update u p)
meant (invite_user target) = some (λ u p. handle_invite_user u p)
meant (kick_user target) = some (λ u p. handle_kick_user u p)
meant (send_voice_start room udp_port) = some (λ u p. handle_voice_start u p)
meant (send_voice_stop room) = some (λ u p. handle_voice_stop u p)
meant (send_voice_status room status) = some (λ u p. handle_voice_status u p)

-- The server runs the handler that is meant.
abbrev pub Answers :
    Env → String → Packet → Option (String → Packet → Exec Server (Unit {0})) → Type 0
Answers env u p none = Unit
Answers env u p (some h) = dispatch env (type_among routed (field_or "type" null p)) u p ≡ h u p

send_raw-sent :
    (p : Packet) (w : TcpWorker) → w.socket ≡ ready → (send_raw p w).sent ≡ w.sent ++ p ∷ []
unfolding send_raw
send_raw-sent p w h = rw h refl

-- A request of a controller whose worker has a socket that works sends one packet; where the request
-- is none of the handshake, the server's `dispatch` runs the handler meant for it on that packet, for
-- a friend with the name that was asked for, stripped.
pub perform-dispatch :
    (env : Env) (user : String) (r : Request) (w : TcpWorker)
    → w.socket ≡ ready
    → (p : Packet) × (w' : TcpWorker) × (perform r (some w) ≡ some w')
      × (w'.sent ≡ w.sent ++ p ∷ [])
      × Answers env user p (meant r)
unfolding perform dispatch type_among get wire_name strip py_str stripped_field Worker.login
    Worker.register_account Worker.reconnect Worker.send_message Worker.send_private_message
    Worker.join_room Worker.leave_room Worker.create_room Worker.delete_room Worker.add_friend
    Worker.accept_friend Worker.reject_friend Worker.remove_friend Worker.get_friends
    Worker.get_online_users Worker.update_status Worker.invite_user Worker.kick_user
    Worker.send_voice_start Worker.send_voice_stop Worker.send_voice_status
perform-dispatch env user (login username password) w h = (
  packet_of PacketType.login
      (("sender", text username) ∷ ("username", text username) ∷ ("password", text password) ∷ []),
  _,
  refl,
  send_raw-sent _ (record w { username = some username }) h,
  tt,
)
perform-dispatch env user (register_account username password) w h = (
  packet_of PacketType.register
      (("sender", text username) ∷ ("username", text username) ∷ ("password", text password) ∷ []),
  _,
  refl,
  send_raw-sent _ (record w { username = some username }) h,
  tt,
)
perform-dispatch env user (reconnect token) w h = (
  packet_of PacketType.reconnect (("session_token", text token) ∷ []),
  _,
  refl,
  send_raw-sent _ (record w { session_token = some token }) h,
  refl,
)
perform-dispatch env user (send_message room message) w h = (
  packet_of PacketType.message (("room", text room) ∷ ("message", text message) ∷ []),
  _,
  refl,
  send_raw-sent _ w h,
  refl,
)
perform-dispatch env user (send_private_message target message) w h = (
  packet_of PacketType.private_message (("target", text target) ∷ ("message", text message) ∷ []),
  _,
  refl,
  send_raw-sent _ w h,
  refl,
)
perform-dispatch env user (join_room room password) w h = (
  packet_of PacketType.join_room
      (("room", text room) ∷ ("password", text (or_else password "")) ∷ []),
  _,
  refl,
  send_raw-sent _ w h,
  refl,
)
perform-dispatch env user (leave_room room) w h =
    (packet_of PacketType.leave_room (("room", text room) ∷ []), _, refl, send_raw-sent _ w h, refl)
perform-dispatch env user (create_room room visibility max_capacity) w h = (
  packet_of PacketType.create_room (
      ("room", text room)
      ∷ ("visibility", text visibility)
      ∷ ("max_capacity", number (pos max_capacity))
      ∷ []),
  _,
  refl,
  send_raw-sent _ w h,
  refl,
)
perform-dispatch env user (delete_room room) w h = (
  packet_of PacketType.delete_room (("room", text room) ∷ []),
  _,
  refl,
  send_raw-sent _ w h,
  refl,
)
perform-dispatch env user (add_friend friend) w h = (
  packet_of PacketType.add_friend (("friend", text friend) ∷ []),
  _,
  refl,
  send_raw-sent _ w h,
  refl,
)
perform-dispatch env user (accept_friend friend) w h = (
  packet_of PacketType.accept_friend (("friend", text friend) ∷ []),
  _,
  refl,
  send_raw-sent _ w h,
  refl,
)
perform-dispatch env user (reject_friend friend) w h = (
  packet_of PacketType.reject_friend (("friend", text friend) ∷ []),
  _,
  refl,
  send_raw-sent _ w h,
  refl,
)
perform-dispatch env user (remove_friend friend) w h = (
  packet_of PacketType.remove_friend (("friend", text friend) ∷ []),
  _,
  refl,
  send_raw-sent _ w h,
  refl,
)
perform-dispatch env user get_friends w h =
    (packet_of PacketType.get_friends ([]), _, refl, send_raw-sent _ w h, refl)
perform-dispatch env user get_online_users w h =
    (packet_of PacketType.get_online_users ([]), _, refl, send_raw-sent _ w h, refl)
perform-dispatch env user (update_status status) w h = (
  packet_of PacketType.update_status (("status", text status) ∷ []),
  _,
  refl,
  send_raw-sent _ w h,
  refl,
)
perform-dispatch env user (invite_user target) w h = (
  packet_of PacketType.invite_user (("target", text target) ∷ []),
  _,
  refl,
  send_raw-sent _ w h,
  refl,
)
perform-dispatch env user (kick_user target) w h = (
  packet_of PacketType.kick_user (("target", text target) ∷ []),
  _,
  refl,
  send_raw-sent _ w h,
  refl,
)
perform-dispatch env user (send_voice_start room udp_port) w h = (
  packet_of PacketType.voice_start (("room", text room) ∷ ("udp_port", number (pos udp_port)) ∷ []),
  _,
  refl,
  send_raw-sent _ w h,
  refl,
)
perform-dispatch env user (send_voice_stop room) w h =
    (packet_of PacketType.voice_stop (("room", text room) ∷ []), _, refl, send_raw-sent _ w h, refl)
perform-dispatch env user (send_voice_status room status) w h = (
  packet_of PacketType.voice_status (("room", text room) ∷ ("status", text status) ∷ []),
  _,
  refl,
  send_raw-sent _ w h,
  refl,
)
