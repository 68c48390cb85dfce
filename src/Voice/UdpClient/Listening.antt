-- ===== src/Voice/UdpClient/Listening.antt =====
-- voice/udp_client.py: what a listener gets of all that comes in.
use g04_final_project_d_25_c.Prelude.{
  Bytes, ◌<◌, Bool, true, false, String, String_eq, ◌==◌, Option, none, some, List, [], ◌∷◌, ◌++◌,
  ◌≡◌, length, if◌then◌else◌,
}
use g04_final_project_d_25_c.Exec.{Result, ok, err}
use g04_final_project_d_25_c.Protocol.{Value, text}
use g04_final_project_d_25_c.Voice.Packets.{
  VoicePacket, Codec, dictionary, encode, decode, payload_of,
}
use g04_final_project_d_25_c.Voice.UdpClient.{UdpVoiceClient, receive}

-- What comes in: the datagram of a frame, of any sender and for any room, or bytes that are none.
pub data Arrival : Type 0 where
  frame : (p : VoicePacket) → Arrival
  noise : (bytes : Bytes) → Arrival

abbrev bytes_or_none : Result Bytes → Bytes
bytes_or_none (ok datagram) = datagram
bytes_or_none (err e) = []

abbrev pub datagram_of : Codec → Arrival → Bytes
datagram_of codec (frame p) = bytes_or_none (encode codec p)
datagram_of codec (noise bytes) = bytes

abbrev is_nothing : Result (Option VoicePacket) → Bool
is_nothing (err e) = true
is_nothing (ok none) = true
is_nothing (ok (some p)) = false

-- JSON and base64 give back what a frame holds, and its payload fits; `decode` makes nothing of noise.
abbrev pub IsCarried : Codec → Arrival → Type 0
IsCarried codec (frame p) =
    (length (codec.dumps (payload_of codec p)) < 4_294_967_296)
    × (codec.loads (codec.dumps (payload_of codec p)) ≡ dictionary (payload_of codec p))
    × (codec.b64decode (codec.b64encode p.audio_data) ≡ ok p.audio_data)
IsCarried codec (noise bytes) = is_nothing (decode codec bytes) ≡ true

abbrev pub AreCarried : Codec → List Arrival → Type 0
AreCarried codec [] = Unit
AreCarried codec (a ∷ arrivals) = IsCarried codec a × AreCarried codec arrivals

abbrev names_room : String → Value → Bool
names_room room (text r) = r == room
names_room room _ = false

-- The frames for the room, in the order in which they come in.
abbrev pub for_room : String → List Arrival → List VoicePacket
for_room room [] = []
for_room room (frame p ∷ arrivals) =
    if names_room room p.room then p ∷ for_room room arrivals else for_room room arrivals
for_room room (noise bytes ∷ arrivals) = for_room room arrivals

-- The datagrams that come in, one after the other.
abbrev pub receive_all : Codec → List Bytes → UdpVoiceClient → UdpVoiceClient
receive_all codec [] c = c
receive_all codec (d ∷ ds) c = receive_all codec ds (receive codec d c)

-- What a frame makes of the listener.
abbrev kept : Bool → VoicePacket → UdpVoiceClient → UdpVoiceClient
kept b p c = if b then record c { received = c.received ++ p ∷ [] } else c
