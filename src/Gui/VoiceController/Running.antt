-- ===== src/Gui/VoiceController/Running.antt =====
-- The UDP clients that the voice of the graphical client starts, and those that go on running.
use g04_final_project_d_25_c.Prelude.{
  Bytes, ℕ, ◌+◌, Bool, true, false, String, Option, none, some, List, [], ◌∷◌, ◌++◌, ◌≡◌, refl, ◌∙◌,
  ap, sym, arith, if◌then◌else◌,
}
use g04_final_project_d_25_c.Voice.Packets.{VoicePacket}
use g04_final_project_d_25_c.Voice.UdpClient
use g04_final_project_d_25_c.Voice.UdpClient.{UdpVoiceClient}
use g04_final_project_d_25_c.Gui.VoiceController.{
  VoiceController, Device, opened, missing, failing, Socket, bound, refused, System, AudioPlayback,
  new_controller, signal, audio_unavailable, stopped_client, leave, fail, client_in, keep_devices,
  open_client, open_speaker, open_voice, join, set_muted, toggle_mute, on_capture_frame, on_frame,
}

-- What happens to the voice: the user joins a room, leaves, mutes; a frame is recorded, or comes in.
pub data Step : Type 0 where
  joins : (system : System) (room : String) → Step
  leaves : Step
  mutes : (on : Bool) → Step
  toggles : Step
  records : (frame : Bytes) → Step
  hears : (packet : VoicePacket) → Step

abbrev pub take_step : Step → VoiceController → VoiceController
take_step (joins system room) v = join system room v
take_step leaves v = leave v
take_step (mutes on) v = set_muted on v
take_step toggles v = (toggle_mute v).1
take_step (records frame) v = on_capture_frame frame v
take_step (hears packet) v = on_frame packet v

abbrev pub take_steps : List Step → VoiceController → VoiceController
take_steps [] v = v
take_steps (s ∷ ss) v = take_steps ss (take_step s v)

-- One more, if so.
abbrev pub count_if : Bool → ℕ → ℕ
count_if true n = n + 1
count_if false n = n

-- How many of the clients run.
abbrev pub running_among : List UdpVoiceClient → ℕ
running_among [] = 0
running_among (c ∷ cs) = count_if c.running (running_among cs)

-- All clients that were ever started.
abbrev pub all_clients : VoiceController → List UdpVoiceClient
all_clients v = elim v.client [ none ↦ v.former | some c ↦ c ∷ v.former ]

-- The controller is connected just when it has a client, and that one runs.
abbrev held : Bool → Option UdpVoiceClient → Bool
held false none = true
held true (some c) = c.running
held _ _ = false

abbrev Sound : VoiceController → Type 0
Sound v = held v.connected v.client ≡ true

-- The client starts, and the microphone fails after it.
abbrev then_fails : Socket → Device → Bool
then_fails (bound port) (failing m) = true
then_fails _ _ = false

abbrev only_microphone : Option String → Device → Socket → Device → Bool
only_microphone none opened s m = then_fails s m
only_microphone none missing s m = then_fails s m
only_microphone _ _ _ _ = false

-- The microphone is all that fails.
abbrev pub fails_late : System → Bool
fails_late system =
    only_microphone system.import_error system.speaker system.socket system.microphone

-- Whether a step is a `join` that fails at the microphone.
abbrev pub loses : Step → VoiceController → Bool
loses (joins system room) v = if v.connected then false else fails_late system
loses _ v = false

-- How many of the steps are.
abbrev pub lost : List Step → VoiceController → ℕ
lost [] v = 0
lost (s ∷ ss) v = count_if (loses s v) (lost ss (take_step s v))

abbrev Effect : Bool → VoiceController → VoiceController → Type 0
Effect b v v' =
    (held v'.connected v'.client ≡ true)
    × (running_among v'.former ≡ count_if b (running_among v.former))

running_among-stopped_client :
    (o : Option UdpVoiceClient) (cs : List UdpVoiceClient)
    → running_among (stopped_client o ++ cs) ≡ running_among cs
unfolding stopped_client UdpClient.leave_room UdpClient.stop
running_among-stopped_client none cs = refl
running_among-stopped_client (some c) cs = refl

leave-Effect : (v : VoiceController) → Effect false v (leave v)
unfolding leave
leave-Effect v = (refl, running_among-stopped_client v.client v.former)

fail-Effect : (reason : String) (v : VoiceController) → Effect false v (fail reason v)
unfolding fail
fail-Effect reason v = leave-Effect (signal (audio_unavailable reason) v)

open_client-Effect :
    (m : Device) (room : String) (p : Option AudioPlayback) (s : Socket) (v : VoiceController)
    → Effect (then_fails s m) v (open_client m room p s v)
unfolding open_client keep_devices client_in fail leave UdpClient.start UdpClient.join_room
open_client-Effect opened room p (refused r) v = fail-Effect r v
open_client-Effect missing room p (refused r) v = fail-Effect r v
open_client-Effect (failing m) room p (refused r) v = fail-Effect r v
open_client-Effect opened room p (bound port) v = (refl, refl)
open_client-Effect missing room p (bound port) v = (refl, refl)
open_client-Effect (failing m) room p (bound port) v =
    (refl, running_among-stopped_client v.client (client_in v.username port room ∷ v.former))

open_voice-Effect :
    (i : Option String) (p : Device) (system : System) (room : String) (v : VoiceController)
    → Sound v
    → system.import_error ≡ i
    → system.speaker ≡ p
    → Effect (only_microphone i p system.socket system.microphone) v (open_voice system room i v)
unfolding open_voice open_speaker
open_voice-Effect none opened system room v h ei ep =
    rw (ep) (open_client-Effect system.microphone room _ system.socket v)
open_voice-Effect none missing system room v h ei ep =
    rw (ep) (open_client-Effect system.microphone room _ system.socket v)
open_voice-Effect none (failing r) system room v h ei ep = rw (ep) (fail-Effect r v)
open_voice-Effect (some e) opened system room v h ei ep = (h, refl)
open_voice-Effect (some e) missing system room v h ei ep = (h, refl)
open_voice-Effect (some e) (failing r) system room v h ei ep = (h, refl)

Effect-if :
    (b l : Bool) (v w : VoiceController)
    → Sound v
    → Effect l v w
    → Effect (if b then false else l) v (if b then v else w)
Effect-if true l v w h k = (h, refl)
Effect-if false l v w h k = k

join-Effect :
    (system : System) (room : String) (v : VoiceController)
    → Sound v
    → Effect (loses (joins system room) v) v (join system room v)
unfolding join
join-Effect system room v h =
    Effect-if v.connected (fails_late system) v _ h
      (open_voice-Effect system.import_error system.speaker system room v h refl refl)

Effect-either :
    (b : Bool) (v x y : VoiceController)
    → Effect false v x
    → Effect false v y
    → Effect false v (if b then x else y)
Effect-either true v x y h k = h
Effect-either false v x y h k = k

held-send_frame :
    (b : Bool) (frame : Bytes) (c : UdpVoiceClient)
    → held b (some (UdpClient.send_frame frame c)) ≡ held b (some c)
unfolding UdpClient.send_frame
held-send_frame true frame c = refl
held-send_frame false frame c = refl

queued :
    (o : Option UdpVoiceClient) (frame : Bytes) (v : VoiceController)
    → v.client ≡ o
    → Sound v
    → Effect false v (elim v.client [
      | none ↦ v
      | some c ↦ record v { client = some (UdpClient.send_frame frame c) }
    ])
queued none frame v e h = rw (e) (h, refl)
queued (some c) frame v e h =
    rw (e) (held-send_frame v.connected frame c ∙ ap (held v.connected) (sym e) ∙ h, refl)

on_capture_frame-Effect :
    (frame : Bytes) (v : VoiceController) → Sound v → Effect false v (on_capture_frame frame v)
unfolding on_capture_frame
on_capture_frame-Effect frame v h =
    Effect-either v.muted v v _ (h, refl)
      (Effect-either v.connected v _ v (queued v.client frame v refl h) (h, refl))

heard :
    (o : Option AudioPlayback) (packet : VoicePacket) (v : VoiceController)
    → v.playback ≡ o
    → Sound v
    → Effect false v (on_frame packet v)
unfolding on_frame
heard none packet v e h = rw (e) (h, refl)
heard (some p) packet v e h = rw (e) (h, refl)

take_step-Effect : (s : Step) (v : VoiceController) → Sound v → Effect (loses s v) v (take_step s v)
unfolding set_muted toggle_mute
take_step-Effect (joins system room) v h = join-Effect system room v h
take_step-Effect leaves v h = leave-Effect v
take_step-Effect (mutes on) v h = (h, refl)
take_step-Effect toggles v h = (h, refl)
take_step-Effect (records frame) v h = on_capture_frame-Effect frame v h
take_step-Effect (hears packet) v h = heard v.playback packet v refl h

count_if-count_if : (a : Bool) (m n : ℕ) → m + count_if a n ≡ count_if a m + n
count_if-count_if true m n = omega arith
count_if-count_if false m n = refl

take_steps-lost :
    (steps : List Step) (v : VoiceController)
    → Sound v
    → Sound (take_steps steps v)
      × (running_among (take_steps steps v).former ≡ lost steps v + running_among v.former)
take_steps-lost [] v h = (h, sym (omega arith))
take_steps-lost (s ∷ ss) v h =
    let (sound, one) = take_step-Effect s v h in
    let (ends, more) = take_steps-lost ss (take_step s v) sound in
    (
      ends,
      more
          ∙ ap (λ n. lost ss (take_step s v) + n) one
          ∙ count_if-count_if (loses s v) (lost ss (take_step s v)) (running_among v.former),
    )

running-held :
    (b : Bool) (o : Option UdpVoiceClient) (v : VoiceController)
    → v.connected ≡ b
    → v.client ≡ o
    → held b o ≡ true
    → running_among (all_clients v) ≡ count_if v.connected (running_among v.former)
running-held false none v eb eo h = rw (eb, eo) refl
running-held true none v eb eo h = ground arith
running-held false (some c) v eb eo h = ground arith
running-held true (some c) v eb eo h = rw (eb, eo, h) refl

-- Whatever the user of the voice does, and whatever the devices and the sockets do: of all UDP clients
-- that the controller started, the number of those that still run is the number of joins that failed at
-- the microphone after the client had started, and one more while the controller is connected. So each
-- client is stopped when the user leaves, and a join that fails earlier leaves none.
pub running_clients :
    (name : String) (steps : List Step)
    → running_among (all_clients (take_steps steps (new_controller name)))
      ≡ count_if
          (take_steps steps (new_controller name)).connected
          (lost steps (new_controller name))
running_clients name steps =
    let v = take_steps steps (new_controller name) in
    let (sound, former) = take_steps-lost steps (new_controller name) refl in
    running-held v.connected v.client v refl refl sound
    ∙ ap (count_if v.connected) (former ∙ omega arith)
