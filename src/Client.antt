-- ===== src/Client.antt =====
-- client/client_app.py: the command line client. `sent` is what its socket took and `printed` what it
-- showed, the first first; `broken` is the text of the OSError that the socket raises, once it does. An
-- exception with a text is a `value_error` here. The files, the port that the system gives to a voice
-- client, and the reason why a closed socket fails are in the record `Machine`.
pub mod Commands
pub mod Display
pub mod Uploads
pub mod Login
pub mod Session
use g04_final_project_d_25_c.Prelude.{
  Bytes, ℕ, ◌+◌, Bool, true, false, String, String_eq, ◌==◌, Option, none, some, List, [], ◌∷◌,
  ◌++◌, pos, if◌then◌else◌, join_text,
}
use g04_final_project_d_25_c.Dict.{Dict}
use g04_final_project_d_25_c.Exec.{
  Exec, Result, ok, err, value_error, pure, raise, gets, modify, when, ◌>>=◌, ◌>>◌,
}
use g04_final_project_d_25_c.Protocol.{
  Packet, PacketType, Value, null, number, text, wire_name, show_nat,
}
use g04_final_project_d_25_c.Voice.UdpClient
use g04_final_project_d_25_c.Voice.UdpClient.{UdpVoiceClient, new_client}

pub data FileRead : Type 0 where
  missing : FileRead
  unreadable : (reason : String) → FileRead
  contents : (data_bytes : Bytes) → FileRead

pub record Machine : Type 0 where
  pub read : String → FileRead
  pub file_name : String → String
  pub uuid : String
  pub b64encode : Bytes → String
  pub voice_port : ℕ
  pub closed_reason : String

pub record ConvoxClient : Type 0 where
  pub username : Option String
  pub session_token : Option String
  pub current_room : String
  pub running : Bool
  pub voice_client : Option UdpVoiceClient
  pub muted : Bool
  pub in_voice_room : Option String
  pub broken : Option String
  pub sent : List Packet
  pub printed : List String

-- `__init__`
abbrev pub new_app : ConvoxClient
new_app = record {
  username = none;
  session_token = none;
  current_room = "global";
  running = false;
  voice_client = none;
  muted = false;
  in_voice_room = none;
  broken = none;
  sent = [];
  printed = [];
}

abbrev pub Action : Type 0
Action = Exec ConvoxClient (Unit {0})

-- `print(f"…")`
unfoldable pub say : List String → Action
unfolding join_text modify
say pieces = modify (λ c. record c { printed = c.printed ++ join_text pieces ∷ [] })

-- `sender=self.username`
abbrev pub sender_value : Option String → Value
sender_value none = null
sender_value (some name) = text name

abbrev pub packet_from : Option String → PacketType → Dict String Value → Packet
packet_from name t fields = ("type", text (wire_name t)) ∷ ("sender", sender_value name) ∷ fields

abbrev pub put_sent : Packet → ConvoxClient → Result (Unit {0}) × ConvoxClient
put_sent p c = elim c.broken [
  | none ↦ (ok tt, record c { sent = c.sent ++ p ∷ [] })
  | some reason ↦ (err (value_error reason), c)
]

unfoldable pub send_packet : PacketType → Dict String Value → Action
send_packet t fields c = put_sent (packet_from c.username t fields) c

-- `bool(text)`, for a text or None
abbrev pub is_set : Option String → Bool
is_set none = false
is_set (some s) = if s == "" then false else true

abbrev pub or_new : Machine → String → Option UdpVoiceClient → UdpVoiceClient
or_new machine name none = UdpClient.start machine.voice_port (new_client name 0)
or_new machine name (some v) = v

-- The voice client joins the room, and one is made first where there is none.
abbrev pub enter_voice : Machine → String → ConvoxClient → ConvoxClient
enter_voice machine name c = record c {
  voice_client = some (UdpClient.join_room c.current_room (or_new machine name c.voice_client));
  in_voice_room = some c.current_room;
}

abbrev pub local_port : Option UdpVoiceClient → ℕ
local_port none = 0
local_port (some v) = v.local_port

abbrev pub room_text : Option String → String
room_text none = ""
room_text (some room) = room

abbrev pub announce_voice : Machine → String → Action
announce_voice machine name = do
  modify (enter_voice machine name)
  room ← gets (λ c. c.current_room)
  voice ← gets (λ c. c.voice_client)
  send_packet PacketType.voice_start
      (("room", text room) ∷ ("udp_port", number (pos (local_port voice))) ∷ [])
  say ("[VOICE] Joined voice in " ∷ room ∷ " (UDP port " ∷ show_nat (local_port voice) ∷ ")" ∷ [])

unfoldable pub join_as : Machine → Option String → Option String → Action
unfolding say send_packet show_nat UdpClient.start UdpClient.join_room ◌>>=◌ gets
join_as machine none room = say ("Cannot join voice before logging in." ∷ [])
join_as machine (some name) room =
    if is_set room
    then say ("Already in voice room: " ∷ room_text room ∷ [])
    else announce_voice machine name

unfoldable pub voice_join : Machine → Action
unfolding join_as ◌>>=◌ gets
voice_join machine = do
  name ← gets (λ c. c.username)
  room ← gets (λ c. c.in_voice_room)
  join_as machine name room

abbrev pub leave_voice : ConvoxClient → ConvoxClient
leave_voice c = record c {
  voice_client = elim c.voice_client [ none ↦ none | some v ↦ some (UdpClient.leave_room v) ];
  in_voice_room = none;
}

unfoldable pub voice_leave : Action
unfolding say send_packet UdpClient.leave_room ◌>>=◌ gets
voice_leave = do
  room ← gets (λ c. c.in_voice_room)
  if is_set room
      then (do
        send_packet PacketType.voice_stop (("room", text (room_text room)) ∷ [])
        modify leave_voice
        say ("[VOICE] Left voice room" ∷ []))
      else say ("Not in a voice room" ∷ [])

abbrev pub mute_text : Bool → String
mute_text muted = if muted then "muted" else "unmuted"

unfoldable pub set_mute : Bool → Action
unfolding say send_packet when ◌>>=◌ gets
set_mute muted = do
  modify (λ c. record c { muted = muted })
  room ← gets (λ c. c.in_voice_room)
  when (is_set room) (
      send_packet PacketType.voice_status
        (("room", text (room_text room)) ∷ ("status", text (mute_text muted)) ∷ []))
  say ("[VOICE] You are now " ∷ mute_text muted ∷ [])
