-- ===== src/Voice/UdpServer.antt =====
-- voice/udp_server.py: the server that passes voice frames on.
pub mod Relay
use g04_final_project_d_25_c.Prelude.{
  Bytes, ℕ, zero, suc, Bool, true, false, String, String_eq, ◌==◌, Option, none, some, List, [],
  ◌∷◌, if◌then◌else◌, ltb,
}
use g04_final_project_d_25_c.Dict.{Dict, put, pop}
use g04_final_project_d_25_c.Exec.{Result, ok, err, internal_error}
use g04_final_project_d_25_c.Protocol.{Value, text}
use g04_final_project_d_25_c.Voice.Packets.{VoicePacket, Codec, encode, decode}
use g04_final_project_d_25_c.Voice.Rooms.{
  VoiceParticipant, VoiceRoom, VoiceRooms, get_room, get_participant, get_participants, add_to_room,
  remove_from_room, user_voice_room,
}

pub record VoiceClient : Type 0 where
  pub username : String
  pub address : String × ℕ

pub record UdpVoiceServer : Type 0 where
  pub room_manager : VoiceRooms
  pub clients : Dict String VoiceClient

-- `__init__`
abbrev pub new_server : UdpVoiceServer
new_server = record { room_manager = []; clients = [] }

-- What is handed to `sendto`; an OSError there is logged, and the loop goes on.
pub record Datagram : Type 0 where
  pub host : String
  pub port : ℕ
  pub contents : Bytes

-- `participant_name == packet.sender`
abbrev pub is_sender : String → VoicePacket → Bool
is_sender name p = elim p.sender [ text s ↦ name == s | _ ↦ false ]

-- `if participant and participant.udp_port`
abbrev pub open_port : Option VoiceParticipant → Option ℕ
open_port none = none
open_port (some q) = elim q.udp_port [
  | none ↦ none
  | some n ↦ elim n [ zero ↦ none | suc k ↦ some (suc k) ]
]

-- What a loop has handed to `sendto`, and how it ends.
abbrev pub Sent : Type 0
Sent = List Datagram × Result (Unit {0})

-- `sendto` raises an OverflowError for a port above 65535, which is no OSError, so that the loop ends.
abbrev pub hand_over : Datagram → Sent → Sent
hand_over d (ds, r) = if ltb 65535 d.port then ([], err internal_error) else (d ∷ ds, r)

-- `self.socket.sendto(packet.encode(), (sender_address[0], port))`, and the rest of the loop
abbrev pub send_one : Codec → VoicePacket → String → Option ℕ → Sent → Sent
send_one codec p host none rest = rest
send_one codec p host (some port) rest = elim (encode codec p) [
  | err e ↦ ([], err e)
  | ok contents ↦ hand_over (record { host = host; port = port; contents = contents }) rest
]

unfoldable pub relay_to : Codec → VoicePacket → String → VoiceRoom → List String → Sent
unfolding get_participant
relay_to codec p host room [] = ([], ok tt)
relay_to codec p host room (name ∷ names) =
    let rest = relay_to codec p host room names in
    if is_sender name p
    then rest
    else send_one codec p host (open_port (get_participant name room)) rest

-- A room whose name is no text is not there.
unfoldable pub relay_packet : Codec → VoicePacket → String → UdpVoiceServer → Sent
unfolding get_room get_participants relay_to
relay_packet codec p host s = elim p.room [
  | text name ↦ (elim (get_room name s.room_manager) [
    | none ↦ ([], ok tt)
    | some room ↦ relay_to codec p host room (get_participants room)
  ])
  | _ ↦ ([], ok tt)
]

-- One turn of `receive_loop`; an exception is logged.
unfoldable pub receive : Codec → Bytes → String → UdpVoiceServer → List Datagram
unfolding decode relay_packet
receive codec contents host s = elim (decode codec contents) [
  | err e ↦ []
  | ok packet ↦ (elim packet [ none ↦ [] | some p ↦ (relay_packet codec p host s).0 ])
]

unfoldable pub register_client : String → String → ℕ → UdpVoiceServer → UdpVoiceServer
unfolding put add_to_room
register_client username room udp_port s = record s {
  clients =
      put username (record { username = username; address = ("127.0.0.1", udp_port) }) s.clients;
  room_manager = add_to_room room username udp_port s.room_manager;
}

-- `if room: self.room_manager.remove_from_room(room, username)`
abbrev pub leave_room_of : Option String → String → VoiceRooms → VoiceRooms
leave_room_of none username rooms = rooms
leave_room_of (some room) username rooms =
    if room == "" then rooms else remove_from_room room username rooms

unfoldable pub unregister_client : String → UdpVoiceServer → UdpVoiceServer
unfolding pop user_voice_room remove_from_room
unregister_client username s = record s {
  clients = pop username s.clients;
  room_manager = leave_room_of (user_voice_room username s.room_manager) username s.room_manager;
}
