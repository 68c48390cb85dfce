-- ===== src/Voice/UdpClient.antt =====
-- voice/udp_client.py: the client that sends voice frames. `sent` is what it handed to `sendto`, the
-- first first; `queue` is what `_send_loop` has not taken yet, where `none` ends the loop.
pub mod Listening
pub mod Numbers
use g04_final_project_d_25_c.Prelude.{
  Bytes, ℕ, ◌+◌, Bool, true, false, String, String_eq, ◌==◌, Option, none, some, List, [], ◌∷◌,
  ◌++◌, pos, map, if◌then◌else◌,
}
use g04_final_project_d_25_c.Exec.{Result, ok, err}
use g04_final_project_d_25_c.Protocol.{Value, text, number}
use g04_final_project_d_25_c.Voice.Packets.{VoicePacket, Codec, encode, decode}

pub record UdpVoiceClient : Type 0 where
  pub username : String
  pub local_port : ℕ
  pub has_socket : Bool
  pub current_room : Option String
  pub sequence : ℕ
  pub queue : List (Option Bytes)
  pub running : Bool
  pub sent : List Bytes
  pub received : List VoicePacket

-- `__init__`
abbrev pub new_client : String → ℕ → UdpVoiceClient
new_client username local_port = record {
  username = username;
  local_port = local_port;
  has_socket = false;
  current_room = none;
  sequence = 0;
  queue = [];
  running = false;
  sent = [];
  received = [];
}

-- `start`, with the port that the system gives
unfoldable pub start : ℕ → UdpVoiceClient → UdpVoiceClient
start port c = record c { has_socket = true; local_port = port; running = true }

-- `if self.current_room and self.socket`
abbrev pub sending_room : UdpVoiceClient → Option String
sending_room c = elim c.current_room [
  | none ↦ none
  | some room ↦ if room == "" then none else if c.has_socket then some room else none
]

abbrev pub frame_of : Bytes → String → UdpVoiceClient → VoicePacket
frame_of frame_data room c = record {
  sender = text c.username;
  room = text room;
  sequence = number (pos c.sequence);
  timestamp = number (pos 0);
  audio_data = frame_data;
}

-- A frame from the queue, and whether `sendto` takes its datagram or raises.
abbrev pub Turn : Type 0
Turn = Bytes × Bool

abbrev frame_in : Option Turn → Option Bytes
frame_in none = none
frame_in (some (frame_data, works)) = some frame_data

-- A frame that cannot be encoded, or that `sendto` does not take, is logged and lost; it takes no
-- number.
abbrev pub sent_as : Bool → Result Bytes → UdpVoiceClient → UdpVoiceClient
sent_as works (err e) c = c
sent_as false (ok datagram) c = c
sent_as true (ok datagram) c = record c {
  sent = c.sent ++ datagram ∷ [];
  sequence = c.sequence + 1;
}

unfoldable pub send_one : Codec → Turn → UdpVoiceClient → UdpVoiceClient
unfolding encode
send_one codec (frame_data, works) c = elim (sending_room c) [
  | none ↦ c
  | some room ↦ sent_as works (encode codec (frame_of frame_data room c)) c
]

-- The turns of `_send_loop` for what is in the queue.
unfoldable pub send_loop : Codec → List (Option Turn) → UdpVoiceClient → UdpVoiceClient
unfolding send_one
send_loop codec [] c = record c { queue = [] }
send_loop codec (none ∷ rest) c = record c { queue = map frame_in rest }
send_loop codec (some turn ∷ rest) c = send_loop codec rest (send_one codec turn c)

unfoldable pub send_frame : Bytes → UdpVoiceClient → UdpVoiceClient
send_frame audio_data c = record c { queue = c.queue ++ some audio_data ∷ [] }

-- `packet and packet.room == self.current_room`
abbrev pub is_for_room : VoicePacket → UdpVoiceClient → Bool
is_for_room p c = elim p.room [
  | text room ↦ (elim c.current_room [ none ↦ false | some current ↦ room == current ])
  | _ ↦ false
]

-- One turn of `_receive_loop`; `on_frame_received` is called with the frames that are kept here.
unfoldable pub receive : Codec → Bytes → UdpVoiceClient → UdpVoiceClient
unfolding decode
receive codec contents c = elim (decode codec contents) [
  | err e ↦ c
  | ok packet ↦ (elim packet [
    | none ↦ c
    | some p ↦ if is_for_room p c then record c { received = c.received ++ p ∷ [] } else c
  ])
]

unfoldable pub join_room : String → UdpVoiceClient → UdpVoiceClient
join_room room c = record c { current_room = some room; sequence = 0 }

unfoldable pub leave_room : UdpVoiceClient → UdpVoiceClient
leave_room c = record c { current_room = none }

unfoldable pub stop : UdpVoiceClient → UdpVoiceClient
stop c = record c { running = false; queue = c.queue ++ none ∷ [] }
