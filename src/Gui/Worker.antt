-- ===== src/Gui/Worker.antt =====
-- gui/controllers/tcp_controller.py, TCPWorker: the packets that it sends. `sent` is what the socket
-- took and `emitted` what the dispatcher was told, the first of them first.
pub mod Loop
pub mod Receiver
pub mod Signing
use g04_final_project_d_25_c.Prelude.{
  ℕ, ◌+◌, Bool, true, false, String, String_eq, ◌==◌, Option, none, some, List, [], ◌∷◌, ◌++◌, pos,
  if◌then◌else◌, or_else,
}
use g04_final_project_d_25_c.Dict.{Dict}
use g04_final_project_d_25_c.Protocol.{Packet, PacketType, Value, number, text, wire_name}
use g04_final_project_d_25_c.Gui.Events.{Event}

-- `self.socket`. One that is there may fail, with the text of the OSError.
pub data Link : Type 0 where
  absent ready : Link
  failing : (reason : String) → Link

pub record TcpWorker : Type 0 where
  pub socket : Link
  pub running : Bool
  pub username : Option String
  pub session_token : Option String
  pub sent : List Packet
  pub emitted : List Event

-- `__init__`
abbrev pub new_worker : TcpWorker
new_worker = record {
  socket = absent;
  running = false;
  username = none;
  session_token = none;
  sent = [];
  emitted = [];
}

-- `self.dispatcher.x.emit(...)`
abbrev pub emitting : Event → TcpWorker → TcpWorker
emitting e w = record w { emitted = w.emitted ++ e ∷ [] }

-- `build_packet(packet_type, **fields)`, as the dictionary that the other side reads.
abbrev pub packet_of : PacketType → Dict String Value → Packet
packet_of t fields = ("type", text (wire_name t)) ∷ fields

unfoldable pub send_raw : Packet → TcpWorker → TcpWorker
send_raw p w = elim w.socket [
  | absent ↦ w
  | ready ↦ record w { sent = w.sent ++ p ∷ [] }
  | failing reason ↦ emitting (Event.error reason) w
]

unfoldable pub login : String → String → TcpWorker → TcpWorker
unfolding send_raw wire_name
login username password w =
    send_raw
      (packet_of PacketType.login (
        ("sender", text username) ∷ ("username", text username) ∷ ("password", text password) ∷ []))
      (record w { username = some username })

unfoldable pub register_account : String → String → TcpWorker → TcpWorker
unfolding send_raw wire_name
register_account username password w =
    send_raw
      (packet_of PacketType.register (
        ("sender", text username) ∷ ("username", text username) ∷ ("password", text password) ∷ []))
      (record w { username = some username })

unfoldable pub reconnect : String → TcpWorker → TcpWorker
unfolding send_raw wire_name
reconnect token w =
    send_raw (packet_of PacketType.reconnect (("session_token", text token) ∷ []))
      (record w { session_token = some token })

unfoldable pub send_message : String → String → TcpWorker → TcpWorker
unfolding send_raw wire_name
send_message room message =
    send_raw (packet_of PacketType.message (("room", text room) ∷ ("message", text message) ∷ []))

unfoldable pub send_private_message : String → String → TcpWorker → TcpWorker
unfolding send_raw wire_name
send_private_message target message = send_raw (
    packet_of PacketType.private_message (("target", text target) ∷ ("message", text message) ∷ []))

unfoldable pub join_room : String → Option String → TcpWorker → TcpWorker
unfolding send_raw wire_name
join_room room password = send_raw (
    packet_of PacketType.join_room
      (("room", text room) ∷ ("password", text (or_else password "")) ∷ []))

unfoldable pub leave_room : String → TcpWorker → TcpWorker
unfolding send_raw wire_name
leave_room room = send_raw (packet_of PacketType.leave_room (("room", text room) ∷ []))

unfoldable pub create_room : String → String → ℕ → TcpWorker → TcpWorker
unfolding send_raw wire_name
create_room room visibility max_capacity = send_raw (
    packet_of PacketType.create_room (
      ("room", text room)
      ∷ ("visibility", text visibility)
      ∷ ("max_capacity", number (pos max_capacity))
      ∷ []))

unfoldable pub delete_room : String → TcpWorker → TcpWorker
unfolding send_raw wire_name
delete_room room = send_raw (packet_of PacketType.delete_room (("room", text room) ∷ []))

unfoldable pub add_friend : String → TcpWorker → TcpWorker
unfolding send_raw wire_name
add_friend friend = send_raw (packet_of PacketType.add_friend (("friend", text friend) ∷ []))

unfoldable pub accept_friend : String → TcpWorker → TcpWorker
unfolding send_raw wire_name
accept_friend friend = send_raw (packet_of PacketType.accept_friend (("friend", text friend) ∷ []))

unfoldable pub reject_friend : String → TcpWorker → TcpWorker
unfolding send_raw wire_name
reject_friend friend = send_raw (packet_of PacketType.reject_friend (("friend", text friend) ∷ []))

unfoldable pub remove_friend : String → TcpWorker → TcpWorker
unfolding send_raw wire_name
remove_friend friend = send_raw (packet_of PacketType.remove_friend (("friend", text friend) ∷ []))

unfoldable pub get_friends : TcpWorker → TcpWorker
unfolding send_raw wire_name
get_friends = send_raw (packet_of PacketType.get_friends ([]))

unfoldable pub get_online_users : TcpWorker → TcpWorker
unfolding send_raw wire_name
get_online_users = send_raw (packet_of PacketType.get_online_users ([]))

unfoldable pub update_status : String → TcpWorker → TcpWorker
unfolding send_raw wire_name
update_status status = send_raw (packet_of PacketType.update_status (("status", text status) ∷ []))

unfoldable pub invite_user : String → TcpWorker → TcpWorker
unfolding send_raw wire_name
invite_user target = send_raw (packet_of PacketType.invite_user (("target", text target) ∷ []))

unfoldable pub kick_user : String → TcpWorker → TcpWorker
unfolding send_raw wire_name
kick_user target = send_raw (packet_of PacketType.kick_user (("target", text target) ∷ []))

unfoldable pub send_voice_start : String → ℕ → TcpWorker → TcpWorker
unfolding send_raw wire_name
send_voice_start room udp_port = send_raw (
    packet_of PacketType.voice_start
      (("room", text room) ∷ ("udp_port", number (pos udp_port)) ∷ []))

unfoldable pub send_voice_stop : String → TcpWorker → TcpWorker
unfolding send_raw wire_name
send_voice_stop room = send_raw (packet_of PacketType.voice_stop (("room", text room) ∷ []))

unfoldable pub send_voice_status : String → String → TcpWorker → TcpWorker
unfolding send_raw wire_name
send_voice_status room status =
    send_raw
      (packet_of PacketType.voice_status (("room", text room) ∷ ("status", text status) ∷ []))
