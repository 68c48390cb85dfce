-- ===== src/Voice/UdpServer/Relay.antt =====
-- voice/udp_server.py: who is sent a voice frame.
use g04_final_project_d_25_c.Prelude.{
  Bytes, ℕ, true, false, String, String_eq, ◌==◌, Option, none, some, List, [], ◌∷◌, ◌≡◌, refl, ap,
  ◌∙◌, map, contains, IsNodup, if◌then◌else◌, ltb, Bool-cases, inl, inr, arith, beq_refl, eq_iff,
}
use g04_final_project_d_25_c.Dict.{Dict, get, keys}
use g04_final_project_d_25_c.Exec.{ok, err, internal_error}
use g04_final_project_d_25_c.Protocol.{text}
use g04_final_project_d_25_c.Voice.Packets.{VoicePacket, Codec, encode}
use g04_final_project_d_25_c.Voice.Rooms.{
  VoiceParticipant, VoiceRoom, get_room, get_participant, get_participants,
}
use g04_final_project_d_25_c.Voice.UdpServer.{
  UdpVoiceServer, Datagram, Sent, is_sender, open_port, send_one, relay_to, relay_packet,
}

abbrev pub with_port : Option ℕ → List ℕ → List ℕ
with_port none ports = ports
with_port (some port) ports = port ∷ ports

-- The ports of all participants but the sender, in the order in which they joined.
abbrev pub ports_but : VoicePacket → Dict String VoiceParticipant → List ℕ
ports_but p [] = []
ports_but p ((name, q) ∷ d) =
    if is_sender name p then ports_but p d else with_port (open_port (some q)) (ports_but p d)

abbrev pub addressed : String → Bytes → ℕ → Datagram
addressed host contents port = record { host = host; port = port; contents = contents }

-- Datagrams that are handed over one after the other, up to the first whose port is above 65535.
abbrev pub sent_up_to : List Datagram → Sent
sent_up_to [] = ([], ok tt)
sent_up_to (d ∷ ds) =
    if ltb 65535 d.port
    then ([], err internal_error)
    else (d ∷ (sent_up_to ds).0, (sent_up_to ds).1)

send_one-with_port :
    (codec : Codec) (p : VoicePacket) (host : String) (contents : Bytes) (o : Option ℕ)
    (rest : Sent) (ports : List ℕ)
    → encode codec p ≡ ok contents
    → rest ≡ sent_up_to (map (addressed host contents) ports)
    → send_one codec p host o rest ≡ sent_up_to (map (addressed host contents) (with_port o ports))
send_one-with_port codec p host contents none rest ports e h = h
send_one-with_port codec p host contents (some port) rest ports e h = rw (send_one, e, h) refl

get-tail :
    (name other : String) (q : VoiceParticipant) (d : Dict String VoiceParticipant)
    → contains name (keys d) ≡ false
    → contains other (keys d) ≡ true
    → get other ((name, q) ∷ d) ≡ get other d
unfolding get
get-tail name other q d new there = elim (Bool-cases (name == other)) [
  | inl e ↦
      let same : contains name (keys d) ≡ contains other (keys d) =
        ap (λ x. contains x (keys d)) ((eq_iff name other).0 e) in
      ground arith
  | inr e ↦ rw (e) refl
]

in_tail :
    (name other : String) (q : VoiceParticipant) (d : Dict String VoiceParticipant)
    → contains other (keys d) ≡ true
    → contains other (keys ((name, q) ∷ d)) ≡ true
unfolding keys
in_tail name other q d there = ground arith

in_head :
    (name : String) (q : VoiceParticipant) (d : Dict String VoiceParticipant)
    → contains name (keys ((name, q) ∷ d)) ≡ true
unfolding keys
in_head name q d = rw (beq_refl name) refl

get_head :
    (name : String) (q : VoiceParticipant) (d : Dict String VoiceParticipant)
    → get name ((name, q) ∷ d) ≡ some q
unfolding get
get_head name q d = rw (beq_refl name) refl

-- The names of some participants, each of which has the same entry in the room.
IsPart : Dict String VoiceParticipant → VoiceRoom → Type 0
IsPart d room =
    (name : String) → contains name (keys d) ≡ true → get_participant name room ≡ get name d

relay_to-ports_but :
    (codec : Codec) (p : VoicePacket) (host : String) (room : VoiceRoom) (contents : Bytes)
    (d : Dict String VoiceParticipant)
    → encode codec p ≡ ok contents
    → IsPart d room
    → IsNodup (keys d)
    → relay_to codec p host room (keys d)
      ≡ sent_up_to (map (addressed host contents) (ports_but p d))
unfolding keys relay_to IsPart
relay_to-ports_but codec p host room contents [] e part n = refl
relay_to-ports_but codec p host room contents ((name, q) ∷ d) e part n =
    let rest =
      relay_to-ports_but codec p host room contents d e
        (λ other there.
          part other (in_tail name other q d there) ∙ get-tail name other q d n.0 there)
        n.1 in
    let found : get_participant name room ≡ some q =
      part name (in_head name q d) ∙ get_head name q d in
    elim (Bool-cases (is_sender name p)) [
      | inl mine ↦ rw (is_sender, mine) rest
      | inr other ↦
          rw (other, found)
            (send_one-with_port codec p host contents (open_port (some q)) _ (ports_but p d) e rest)
    ]

-- A frame for a room that is there, and that can be encoded, is handed to `sendto` for the participants
-- of the room who have a port, other than the sender: once each, in the order in which they joined, at
-- the host that the frame came from. At the first of them whose port is above 65535 the relaying ends
-- with an error, and it ends well where there is none.
pub relay_packet-ports_but :
    (codec : Codec) (p : VoicePacket) (host name : String) (room : VoiceRoom) (contents : Bytes)
    (s : UdpVoiceServer)
    → p.room ≡ text name
    → get_room name s.room_manager ≡ some room
    → encode codec p ≡ ok contents
    → IsNodup (keys room.participants)
    → relay_packet codec p host s
      ≡ sent_up_to (map (addressed host contents) (ports_but p room.participants))
unfolding relay_packet get_participants get_participant IsPart
relay_packet-ports_but codec p host name room contents s r g e n =
    rw (relay_packet, r, g)
      (relay_to-ports_but codec p host room contents room.participants e (λ other there. refl) n)
