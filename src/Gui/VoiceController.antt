-- ===== src/Gui/VoiceController.antt =====
-- gui/controllers/udp_voice_controller.py, with voice/audio_capture.py and voice/audio_playback.py as far
-- as it uses them. `former` are the clients that the controller has let go of, each in the state in which
-- it was then, the last one first; `signals` is what was emitted, the first of them first.
pub mod Running
use g04_final_project_d_25_c.Prelude.{
  Bytes, ℕ, Bool, true, false, not, String, Option, none, some, List, [], ◌∷◌, ◌++◌, if◌then◌else◌,
}
use g04_final_project_d_25_c.Voice.Packets.{VoicePacket}
use g04_final_project_d_25_c.Voice.UdpClient
use g04_final_project_d_25_c.Voice.UdpClient.{UdpVoiceClient, new_client}

pub record AudioCapture : Type 0 where
  pub recording : Bool

pub record AudioPlayback : Type 0 where
  pub playing : Bool
  pub playback_queue : List (Option Bytes)

-- What comes of PyAudio: a stream, no such library, or an exception with its text.
pub data Device : Type 0 where
  opened missing : Device
  failing : (reason : String) → Device

-- What comes of a UDP socket: its port, or an exception with its text.
pub data Socket : Type 0 where
  bound : (port : ℕ) → Socket
  refused : (reason : String) → Socket

-- What `join` meets. The modules of the voice may not be there.
pub record System : Type 0 where
  pub import_error : Option String
  pub speaker : Device
  pub socket : Socket
  pub microphone : Device

pub data Signal : Type 0 where
  voice_state_changed mute_state_changed : (on : Bool) → Signal
  audio_unavailable : (reason : String) → Signal

pub record VoiceController : Type 0 where
  pub username : String
  pub client : Option UdpVoiceClient
  pub capture : Option AudioCapture
  pub playback : Option AudioPlayback
  pub connected : Bool
  pub muted : Bool
  pub current_room : Option String
  pub former : List UdpVoiceClient
  pub signals : List Signal

-- `__init__`
abbrev pub new_controller : String → VoiceController
new_controller username = record {
  username = username;
  client = none;
  capture = none;
  playback = none;
  connected = false;
  muted = false;
  current_room = none;
  former = [];
  signals = [];
}

abbrev pub signal : Signal → VoiceController → VoiceController
signal s v = record v { signals = v.signals ++ s ∷ [] }

abbrev pub local_port : VoiceController → ℕ
local_port v = elim v.client [ none ↦ 0 | some c ↦ c.local_port ]

-- `none` is the exception of a device that fails; a library that is not there is no failure.
abbrev pub start_capture : Device → Option AudioCapture
start_capture opened = some (record { recording = true })
start_capture missing = some (record { recording = false })
start_capture (failing reason) = none

abbrev pub start_playback : Device → Option AudioPlayback
start_playback opened = some (record { playing = true; playback_queue = [] })
start_playback missing = some (record { playing = false; playback_queue = [] })
start_playback (failing reason) = none

-- `client.leave_room()` and `client.stop()`, if there is a client.
unfoldable pub stopped_client : Option UdpVoiceClient → List UdpVoiceClient
unfolding UdpClient.leave_room UdpClient.stop
stopped_client none = []
stopped_client (some c) = UdpClient.stop (UdpClient.leave_room c) ∷ []

unfoldable pub leave : VoiceController → VoiceController
unfolding stopped_client
leave v = signal (mute_state_changed false) (
    signal (voice_state_changed false) (record v {
      client = none;
      capture = none;
      playback = none;
      connected = false;
      muted = false;
      current_room = none;
      former = stopped_client v.client ++ v.former;
    }))

-- The handler of an exception in `join`.
unfoldable pub fail : String → VoiceController → VoiceController
unfolding leave
fail reason v = leave (signal (audio_unavailable reason) v)

-- The client that `join` starts, in its room.
unfoldable pub client_in : String → ℕ → String → UdpVoiceClient
unfolding UdpClient.start UdpClient.join_room
client_in username port room =
    UdpClient.join_room room (UdpClient.start port (new_client username 0))

-- The microphone comes last. The controller keeps the devices and the client where it can be opened.
unfoldable pub keep_devices :
    UdpVoiceClient → String → Device → Option AudioPlayback → VoiceController → VoiceController
unfolding fail
keep_devices c room (failing reason) playback v = fail reason (record v { former = c ∷ v.former })
keep_devices c room microphone playback v = signal (mute_state_changed false) (
    signal (voice_state_changed true) (record v {
      client = some c;
      capture = start_capture microphone;
      playback = playback;
      current_room = some room;
      connected = true;
      muted = false;
    }))

-- The client is started after the speaker, and before the microphone.
unfoldable pub open_client :
    Device → String → Option AudioPlayback → Socket → VoiceController → VoiceController
unfolding keep_devices client_in fail
open_client microphone room playback (refused reason) v = fail reason v
open_client microphone room playback (bound port) v =
    keep_devices (client_in v.username port room) room microphone playback v

unfoldable pub open_speaker : Device → Socket → String → Device → VoiceController → VoiceController
unfolding open_client fail
open_speaker microphone socket room (failing reason) v = fail reason v
open_speaker microphone socket room speaker v =
    open_client microphone room (start_playback speaker) socket v

unfoldable pub open_voice : System → String → Option String → VoiceController → VoiceController
unfolding open_speaker
open_voice system room (some import_error) v = signal (audio_unavailable import_error) v
open_voice system room none v = open_speaker system.microphone system.socket room system.speaker v

unfoldable pub join : System → String → VoiceController → VoiceController
unfolding open_voice
join system room v = if v.connected then v else open_voice system room system.import_error v

-- What `join` returns; a client that was kept is connected.
abbrev pub joined_port : VoiceController → Option ℕ
joined_port v = if v.connected then some (local_port v) else none

unfoldable pub set_muted : Bool → VoiceController → VoiceController
set_muted muted v = signal (mute_state_changed muted) (record v { muted = muted })

unfoldable pub toggle_mute : VoiceController → Bool × VoiceController
unfolding set_muted
toggle_mute v = let v' = set_muted (not v.muted) v in (v'.muted, v')

-- `_on_capture_frame`, which the thread of the microphone calls.
unfoldable pub on_capture_frame : Bytes → VoiceController → VoiceController
unfolding UdpClient.send_frame
on_capture_frame frame v =
    if v.muted
    then v
    else (if v.connected
        then (elim v.client [
          | none ↦ v
          | some c ↦ record v { client = some (UdpClient.send_frame frame c) }
        ])
        else v)

-- `_on_frame`, which the client calls with each packet that it takes.
unfoldable pub on_frame : VoicePacket → VoiceController → VoiceController
on_frame packet v = elim v.playback [
  | none ↦ v
  | some p ↦ record v {
    playback = some (record p { playback_queue = p.playback_queue ++ some packet.audio_data ∷ [] });
  }
]
