-- ===== src/Samples/Calls.antt =====
-- Runs of voice over UDP on small inputs.
use g04_final_project_d_25_c.Prelude.{
  Bytes, ◌≡◌, refl, false, true, List, String, String_eq, some, none, [], ◌∷◌, ◌++◌, pos, map, take,
  arith,
}
use g04_final_project_d_25_c.Dict
use g04_final_project_d_25_c.Exec.{ok}
use g04_final_project_d_25_c.Protocol.{text, number}
use g04_final_project_d_25_c.Protocol.Frame.{to_bytes}
use g04_final_project_d_25_c.Voice.Packets.{VoicePacket, Codec, dictionary, encode, decode, pack}
use g04_final_project_d_25_c.Voice.Packets.RoundTrip.{decode-encode, decode-cut_off}
use g04_final_project_d_25_c.Voice.Rooms.{
  VoiceRoom, get_room, add_to_room, create_or_get_room, add_participant,
}
use g04_final_project_d_25_c.Voice.UdpServer.{
  UdpVoiceServer, new_server, relay_packet, register_client,
}
use g04_final_project_d_25_c.Voice.UdpServer.Relay.{
  relay_packet-ports_but, addressed, ports_but, sent_up_to,
}
use g04_final_project_d_25_c.Voice.UdpClient.{
  UdpVoiceClient, new_client, Turn, start, send_loop, join_room,
}
use g04_final_project_d_25_c.Voice.UdpClient.Numbers.{send_loop-join_room}
use g04_final_project_d_25_c.Voice.UdpClient.Listening.{Arrival, frame, noise}

abbrev first_frame : VoicePacket
first_frame = record {
  sender = text "ann";
  room = text "lobby";
  sequence = number (pos 0);
  timestamp = number (pos 0);
  audio_data = 7 ∷ 8 ∷ [];
}

abbrev audio_text : Bytes → String
audio_text bs = "Bwg="

-- A JSON and a base64 that know one frame.
abbrev codec : Codec
codec = record {
  dumps = λ d. 123 ∷ 125 ∷ [];
  loads = λ bs. dictionary (
      ("type", text "VOICE_FRAME")
      ∷ ("sender", text "ann")
      ∷ ("room", text "lobby")
      ∷ ("sequence", number (pos 0))
      ∷ ("timestamp", number (pos 0))
      ∷ ("audio", text "Bwg=")
      ∷ []);
  b64encode = audio_text;
  b64decode = λ s. ok (7 ∷ 8 ∷ []);
}

decode-encode_example :
    (datagram : Bytes) × (encode codec first_frame ≡ ok datagram)
    × (decode codec datagram ≡ ok (some first_frame))
decode-encode_example = decode-encode codec first_frame (omega arith) refl refl

abbrev wire : Bytes
wire = 222 ∷ 173 ∷ 190 ∷ 239 ∷ 0 ∷ 0 ∷ 0 ∷ 2 ∷ 123 ∷ 125 ∷ []

encoded_wire : encode codec first_frame ≡ ok wire
unfolding encode pack to_bytes
encoded_wire = refl

decode-cut_off_example : decode codec (take 9 wire) ≡ ok none
decode-cut_off_example =
    decode-cut_off codec first_frame wire 9 (omega arith) encoded_wire (omega arith)

abbrev relay_server : UdpVoiceServer
relay_server = register_client "bob" "lobby" 5002 (register_client "ann" "lobby" 5001 new_server)

abbrev lobby : VoiceRoom
lobby = record {
  room_name = "lobby";
  participants =
      ("ann", record { username = "ann"; speaking = false; muted = false; udp_port = some 5001 })
      ∷ ("bob", record { username = "bob"; speaking = false; muted = false; udp_port = some 5002 })
      ∷ [];
}

lobby_held : get_room "lobby" relay_server.room_manager ≡ some lobby
unfolding get_room register_client add_to_room create_or_get_room add_participant Dict.get Dict.put
lobby_held = refl

relay_packet-ports_but_example :
    relay_packet codec first_frame "10.0.0.3" relay_server
    ≡ sent_up_to (map (addressed "10.0.0.3" wire) (ports_but first_frame lobby.participants))
unfolding Dict.keys
relay_packet-ports_but_example =
    relay_packet-ports_but codec first_frame "10.0.0.3" "lobby" lobby wire relay_server refl
      lobby_held encoded_wire (refl, (refl, tt))

abbrev speaker : UdpVoiceClient
speaker = start 5001 (new_client "ann" 0)

-- The first datagram is refused.
abbrev two_turns : List Turn
two_turns = (9 ∷ [], false) ∷ (7 ∷ 8 ∷ [], true) ∷ []

send_loop-join_room_example :
    (send_loop codec (map some two_turns) (join_room "lobby" speaker)).sent
    ≡ speaker.sent ++ wire ∷ []
unfolding start
send_loop-join_room_example =
    send_loop-join_room codec "lobby" two_turns (wire ∷ []) speaker refl refl (encoded_wire, tt)

abbrev listener : UdpVoiceClient
listener = record (start 5002 (new_client "bob" 0)) { current_room = some "lobby" }

-- A datagram that was cut off, and a frame.
abbrev arrivals : List Arrival
arrivals = noise (222 ∷ 173 ∷ []) ∷ frame first_frame ∷ []
