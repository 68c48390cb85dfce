-- ===== src/Voice/Packets.antt =====
-- voice/voice_packet.py: a voice frame as a datagram. JSON and base64 are parameters; a payload is the
-- dictionary that `json` gives, as in `Protocol`.
pub mod RoundTrip
use g04_final_project_d_25_c.Prelude.{
  Bytes, ℕ, ◌+◌, Bool, true, false, String, String_eq, ℕ_eq, ◌==◌, Option, none, some, List, [],
  ◌∷◌, ◌++◌, length, take, drop, ltb, if◌then◌else◌,
}
use g04_final_project_d_25_c.Dict.{Dict, get}
use g04_final_project_d_25_c.Exec.{Result, ok, err, PyError, value_error, internal_error}
use g04_final_project_d_25_c.Protocol.{Value, text}
use g04_final_project_d_25_c.Protocol.Frame.{to_bytes, from_bytes}

-- `VOICE_MAGIC`
abbrev pub voice_magic : ℕ
voice_magic = 0xdeadbeef

pub record VoicePacket : Type 0 where
  pub sender : Value
  pub room : Value
  pub sequence : Value
  pub timestamp : Value
  pub audio_data : Bytes

-- `json.loads(payload.decode("utf-8"))`: an error of either, a value that is no dictionary, or one.
pub data Loaded : Type 0 where
  malformed no_dictionary : Loaded
  dictionary : Dict String Value → Loaded

pub record Codec : Type 0 where
  pub dumps : Dict String Value → Bytes
  pub loads : Bytes → Loaded
  pub b64encode : Bytes → String
  pub b64decode : String → Result Bytes

abbrev pub payload_of : Codec → VoicePacket → Dict String Value
payload_of codec p =
    ("type", text "VOICE_FRAME")
    ∷ ("sender", p.sender)
    ∷ ("room", p.room)
    ∷ ("sequence", p.sequence)
    ∷ ("timestamp", p.timestamp)
    ∷ ("audio", text (codec.b64encode p.audio_data))
    ∷ []

-- `struct.pack(">I", n)`, which raises for a number that four bytes do not hold
unfoldable pub pack : ℕ → Result Bytes
unfolding to_bytes
pack n = if ltb n 4_294_967_296 then ok (to_bytes n) else err internal_error

unfoldable pub encode : Codec → VoicePacket → Result Bytes
unfolding pack to_bytes
encode codec p =
    let json_bytes = codec.dumps (payload_of codec p) in
    elim (pack (length json_bytes)) [
      | err e ↦ err e
      | ok size ↦ ok ((to_bytes voice_magic ++ size) ++ json_bytes)
    ]

-- `payload["audio"].encode("ascii")`, decoded: a value that is no text has no `encode`.
abbrev pub audio_of : Codec → Value → Result Bytes
audio_of codec (text s) = codec.b64decode s
audio_of codec _ = err internal_error

-- A missing key is a KeyError.
abbrev pub packet_with :
    Bytes → Option Value → Option Value → Option Value → Option Value → Option VoicePacket
packet_with audio (some sender) (some room) (some sequence) (some timestamp) = some (record {
  sender = sender;
  room = room;
  sequence = sequence;
  timestamp = timestamp;
  audio_data = audio;
})
packet_with audio _ _ _ _ = none

-- A ValueError and a KeyError are caught, and any other exception goes on.
abbrev pub with_audio : Result Bytes → Dict String Value → Result (Option VoicePacket)
with_audio (err (value_error e)) d = ok none
with_audio (err internal_error) d = err internal_error
with_audio (ok audio) d =
    ok (packet_with audio (get "sender" d) (get "room" d) (get "sequence" d) (get "timestamp" d))

unfoldable pub decode_payload : Codec → Loaded → Result (Option VoicePacket)
unfolding get
decode_payload codec malformed = ok none
decode_payload codec no_dictionary = err internal_error
decode_payload codec (dictionary d) = elim (get "audio" d) [
  | none ↦ ok none
  | some audio ↦ with_audio (audio_of codec audio) d
]

unfoldable pub decode : Codec → Bytes → Result (Option VoicePacket)
unfolding decode_payload from_bytes
decode codec data_bytes =
    let size = from_bytes (take 4 (drop 4 data_bytes)) in
    if ltb (length data_bytes) 8
    then ok none
    else if from_bytes (take 4 data_bytes) == voice_magic
    then (if ltb (length data_bytes) (8 + size)
        then ok none
        else decode_payload codec (codec.loads (take size (drop 8 data_bytes))))
    else ok none
