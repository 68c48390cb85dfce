-- ===== src/Voice/UdpClient/Numbers.antt =====
-- voice/udp_client.py: the numbers of the frames.
use g04_final_project_d_25_c.Prelude.{
  Bytes, ℕ, ◌+◌, true, false, String, String_eq, ◌==◌, some, List, [], ◌∷◌, ◌++◌, ◌≡◌, refl, ap,
  sym, ◌∙◌, pos, map, if◌then◌else◌,
}
use g04_final_project_d_25_c.Exec.{Result, ok, err}
use g04_final_project_d_25_c.Protocol.{text, number}
use g04_final_project_d_25_c.Voice.Packets.{VoicePacket, Codec, encode}
use g04_final_project_d_25_c.Voice.UdpClient.{
  UdpVoiceClient, Turn, send_loop, send_one, sent_as, sending_room, frame_of, join_room,
}

-- The frames of one speaker in one room, numbered from `n` on.
abbrev pub numbered : String → String → ℕ → List Bytes → List VoicePacket
numbered username room n [] = []
numbered username room n (f ∷ fs) =
    record {
      sender = text username;
      room = text room;
      sequence = number (pos n);
      timestamp = number (pos 0);
      audio_data = f;
    }
    ∷ numbered username room (n + 1) fs

-- The datagrams of some frames, each of which can be encoded.
abbrev pub AreEncoded : Codec → List VoicePacket → List Bytes → Type 0
AreEncoded codec [] [] = Unit
AreEncoded codec (p ∷ ps) (d ∷ ds) = (encode codec p ≡ ok d) × AreEncoded codec ps ds
AreEncoded codec _ _ = ⊥

append_assoc : (a b c : List Bytes) → (a ++ b) ++ c ≡ a ++ (b ++ c)
append_assoc [] b c = refl
append_assoc (x ∷ a) b c = ap (λ l. x ∷ l) (append_assoc a b c)

append_nil : (a : List Bytes) → a ++ [] ≡ a
append_nil [] = refl
append_nil (x ∷ a) = ap (λ l. x ∷ l) (append_nil a)

abbrev numbered_one : Bytes → UdpVoiceClient → UdpVoiceClient
numbered_one datagram c = record c { sent = c.sent ++ datagram ∷ []; sequence = c.sequence + 1 }

-- The frames that `sendto` takes.
abbrev pub taken : List Turn → List Bytes
taken [] = []
taken ((frame_data, works) ∷ turns) = if works then frame_data ∷ taken turns else taken turns

send_one-numbered_one :
    (codec : Codec) (room : String) (f datagram : Bytes) (c : UdpVoiceClient)
    → sending_room c ≡ some room
    → encode codec (frame_of f room c) ≡ ok datagram
    → send_one codec (f, true) c ≡ numbered_one datagram c
unfolding send_one
send_one-numbered_one codec room f datagram c h e = rw (send_one, h, e) refl

sent_as-lost : (r : Result Bytes) (c : UdpVoiceClient) → sent_as false r c ≡ c
sent_as-lost (err e) c = refl
sent_as-lost (ok datagram) c = refl

send_one-lost :
    (codec : Codec) (room : String) (f : Bytes) (c : UdpVoiceClient)
    → sending_room c ≡ some room
    → send_one codec (f, false) c ≡ c
unfolding send_one
send_one-lost codec room f c h =
    rw (send_one, h) (sent_as-lost (encode codec (frame_of f room c)) c)

send_loop-numbered :
    (codec : Codec) (room : String) (turns : List Turn) (ds : List Bytes) (c : UdpVoiceClient)
    → sending_room c ≡ some room
    → AreEncoded codec (numbered c.username room c.sequence (taken turns)) ds
    → (send_loop codec (map some turns) c).sent ≡ c.sent ++ ds
unfolding send_loop
send_loop-numbered codec room [] [] c h e = sym (append_nil c.sent)
send_loop-numbered codec room [] (d ∷ ds) c h e = elim e [ ]
send_loop-numbered codec room ((f, false) ∷ turns) ds c h e =
    ap (λ x. (send_loop codec (map some turns) x).sent) (send_one-lost codec room f c h)
    ∙ send_loop-numbered codec room turns ds c h e
send_loop-numbered codec room ((f, true) ∷ turns) [] c h e = elim e [ ]
send_loop-numbered codec room ((f, true) ∷ turns) (d ∷ ds) c h (e, es) =
    ap (λ x. (send_loop codec (map some turns) x).sent) (send_one-numbered_one codec room f d c h e)
    ∙ send_loop-numbered codec room turns ds (numbered_one d c) h es
    ∙ append_assoc c.sent (d ∷ []) ds

-- After a client with a socket has joined a room whose name is not empty, the frames that it takes from
-- its queue, other than those for which `sendto` raises, are sent as datagrams for that room that are
-- numbered from 0 on without a gap, in the order of the queue, where each can be encoded. The frames for
-- which `sendto` raises are lost and take no number; what the client sent before stays.
pub send_loop-join_room :
    (codec : Codec) (room : String) (turns : List Turn) (ds : List Bytes) (c : UdpVoiceClient)
    → (room == "") ≡ false
    → c.has_socket ≡ true
    → AreEncoded codec (numbered c.username room 0 (taken turns)) ds
    → (send_loop codec (map some turns) (join_room room c)).sent ≡ c.sent ++ ds
unfolding join_room
send_loop-join_room codec room turns ds c named socket e =
    send_loop-numbered codec room turns ds (join_room room c) (rw (named, socket) refl) e
