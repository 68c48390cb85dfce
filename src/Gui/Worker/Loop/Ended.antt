-- ===== src/Gui/Worker/Loop/Ended.antt =====
-- The loop of the worker, up to the end of the data, a failure of the socket or a stop.
use g04_final_project_d_25_c.Prelude.{
  ℤ, true, false, String, String_eq, Option, none, some, List, [], ◌∷◌, ◌++◌, map, ◌≡◌, ◌∙◌, ap,
  refl,
}
use g04_final_project_d_25_c.Dict.{get}
use g04_final_project_d_25_c.Exec.{
  Result, Keeps, keeps_rules, Keeps-modify, Keeps-catch, Keeps-pure,
}
use g04_final_project_d_25_c.Protocol.{
  PacketType, Reply, Field, string, nat, names, roster, history,
}
use g04_final_project_d_25_c.Gui.Events.{Event, connected, connection_error}
use g04_final_project_d_25_c.Gui.Worker.{TcpWorker, ready, emitting}
use g04_final_project_d_25_c.Gui.Worker.Receiver.{
  emit, text_field, given_or, text_or, room_or_sender, result_of, take_session, announce_session,
  announce_account, on_auth_success, on_session_ack, on_chat, on_private, on_image, on_file,
  on_progress, packet_branch, on_packet, handle_packet,
}
use g04_final_project_d_25_c.Gui.Worker.Loop.{
  Incoming, arrived, closed, broken, stopped, receive_loop, disconnect, run, connect_to_server,
}

abbrev Running : TcpWorker → Type 0
Running w = w.running ≡ true

emit-Keeps : (e : Event) → Keeps Running (emit e)
unfolding emit
emit-Keeps e = Keeps-modify _ (λ w h. h)

text_field-Keeps :
    (key default : String) (packet : Reply) → Keeps Running (text_field key default packet)
unfolding text_field
text_field-Keeps key default packet = search keeps_rules

given_or-Keeps : (old : Option String) (o : Option Field) → Keeps Running (given_or old o)
unfolding given_or
given_or-Keeps old none = search keeps_rules
given_or-Keeps old (some (string s)) = search keeps_rules
given_or-Keeps old (some (nat n)) = search keeps_rules
given_or-Keeps old (some (names xs)) = search keeps_rules
given_or-Keeps old (some (roster xs)) = search keeps_rules
given_or-Keeps old (some (history xs)) = search keeps_rules

text_or-Keeps :
    (key : String) (old : Option String) (packet : Reply) → Keeps Running (text_or key old packet)
unfolding text_or
text_or-Keeps key old packet = given_or-Keeps old (get key packet.fields)

room_or_sender-Keeps : (packet : Reply) → Keeps Running (room_or_sender packet)
unfolding room_or_sender
room_or_sender-Keeps packet = search keeps_rules

result_of-Keeps : (r : Result ℤ) → Keeps Running (result_of r)
result_of-Keeps r = record { after = λ w h. h }

ruleset receiver_rules = (
  keeps_rules, emit-Keeps, text_field-Keeps, text_or-Keeps, room_or_sender-Keeps, result_of-Keeps,
)

take_session-Keeps : (packet : Reply) → Keeps Running (take_session packet)
unfolding take_session
take_session-Keeps packet = search (receiver_rules, Keeps-modify) depth 14

announce_session-Keeps : (packet : Reply) → Keeps Running (announce_session packet)
unfolding announce_session
announce_session-Keeps packet = search receiver_rules depth 12

announce_account-Keeps : (packet : Reply) → Keeps Running (announce_account packet)
unfolding announce_account
announce_account-Keeps packet = search receiver_rules depth 12

ruleset session_rules =
    (receiver_rules, take_session-Keeps, announce_session-Keeps, announce_account-Keeps)

on_auth_success-Keeps : (packet : Reply) → Keeps Running (on_auth_success packet)
unfolding on_auth_success
on_auth_success-Keeps packet = search session_rules depth 12

on_session_ack-Keeps : (packet : Reply) → Keeps Running (on_session_ack packet)
unfolding on_session_ack
on_session_ack-Keeps packet = search session_rules depth 12

on_chat-Keeps : (packet : Reply) → Keeps Running (on_chat packet)
unfolding on_chat
on_chat-Keeps packet = search receiver_rules depth 14

on_private-Keeps : (packet : Reply) → Keeps Running (on_private packet)
unfolding on_private
on_private-Keeps packet = search receiver_rules depth 14

on_image-Keeps : (packet : Reply) → Keeps Running (on_image packet)
unfolding on_image
on_image-Keeps packet = search receiver_rules depth 14

on_file-Keeps : (qt_int : ℤ → Result ℤ) (packet : Reply) → Keeps Running (on_file qt_int packet)
unfolding on_file
on_file-Keeps qt_int packet = search receiver_rules depth 20

on_progress-Keeps :
    (qt_int : ℤ → Result ℤ) (packet : Reply) → Keeps Running (on_progress qt_int packet)
unfolding on_progress
on_progress-Keeps qt_int packet = search receiver_rules depth 14

packet_branch-Keeps :
    (qt_int : ℤ → Result ℤ) (t : PacketType) (packet : Reply)
    → Keeps Running (packet_branch qt_int t packet)
unfolding packet_branch
packet_branch-Keeps qt_int PacketType.auth_success packet = on_auth_success-Keeps packet
packet_branch-Keeps qt_int PacketType.auth_failed packet = search receiver_rules depth 12
packet_branch-Keeps qt_int PacketType.session_ack packet = on_session_ack-Keeps packet
packet_branch-Keeps qt_int PacketType.message packet = on_chat-Keeps packet
packet_branch-Keeps qt_int PacketType.private_message packet = on_private-Keeps packet
packet_branch-Keeps qt_int PacketType.system packet = search receiver_rules depth 12
packet_branch-Keeps qt_int PacketType.friend_request packet = search receiver_rules depth 12
packet_branch-Keeps qt_int PacketType.friend_list packet = search receiver_rules depth 12
packet_branch-Keeps qt_int PacketType.get_online_users packet = search receiver_rules depth 12
packet_branch-Keeps qt_int PacketType.status_update packet = search receiver_rules depth 12
packet_branch-Keeps qt_int PacketType.image packet = on_image-Keeps packet
packet_branch-Keeps qt_int PacketType.file packet = on_file-Keeps qt_int packet
packet_branch-Keeps qt_int PacketType.transfer_progress packet = on_progress-Keeps qt_int packet
packet_branch-Keeps qt_int PacketType.error packet = search receiver_rules depth 12
packet_branch-Keeps qt_int _ packet = search keeps_rules

-- No packet stops the worker, whatever its fields are.
handle_packet-Running :
    (qt_int : ℤ → Result ℤ) (packet : Reply) (w : TcpWorker)
    → Running w
    → Running (handle_packet qt_int packet w)
unfolding handle_packet on_packet
handle_packet-Running qt_int packet w h =
    (Keeps-catch _ _ (packet_branch-Keeps qt_int packet.type packet) (λ e. Keeps-pure tt)).after w h

-- The packets in their order.
abbrev pub handle_all : (ℤ → Result ℤ) → List Reply → TcpWorker → TcpWorker
handle_all qt_int [] w = w
handle_all qt_int (p ∷ ps) w = handle_all qt_int ps (handle_packet qt_int p w)

receive_loop-arrived :
    (qt_int : ℤ → Result ℤ) (p : Reply) (rest : List Incoming) (w : TcpWorker)
    → Running w
    → receive_loop qt_int (arrived p ∷ rest) w ≡ receive_loop qt_int rest (handle_packet qt_int p w)
unfolding receive_loop
receive_loop-arrived qt_int p rest w h = rw (h) refl

receive_loop-map :
    (qt_int : ℤ → Result ℤ) (ps : List Reply) (rest : List Incoming) (w : TcpWorker)
    → Running w
    → (receive_loop qt_int (map arrived ps ++ rest) w
        ≡ receive_loop qt_int rest (handle_all qt_int ps w))
      × Running (handle_all qt_int ps w)
receive_loop-map qt_int [] rest w h = (refl, h)
receive_loop-map qt_int (p ∷ ps) rest w h =
    let (same, runs) =
      receive_loop-map qt_int ps rest (handle_packet qt_int p w)
        (handle_packet-Running qt_int p w h) in
    (receive_loop-arrived qt_int p (map arrived ps ++ rest) w h ∙ same, runs)

-- What comes after the packets at the end of the loop, and what the worker then tells.
abbrev pub end_of : Option String → Incoming
end_of none = closed
end_of (some reason) = broken reason

abbrev pub told : Option String → TcpWorker → TcpWorker
told none w = w
told (some reason) w = emitting (connection_error reason) w

receive_loop-end_of :
    (qt_int : ℤ → Result ℤ) (end : Option String) (later : List Incoming) (w : TcpWorker)
    → Running w
    → receive_loop qt_int (end_of end ∷ later) w ≡ told end w
unfolding receive_loop
receive_loop-end_of qt_int none later w h = rw (h) refl
receive_loop-end_of qt_int (some reason) later w h = rw (h) refl

receive_loop-stopped :
    (qt_int : ℤ → Result ℤ) (later : List Incoming) (w : TcpWorker)
    → Running w
    → receive_loop qt_int (stopped ∷ later) w ≡ record w { running = false }
unfolding receive_loop
receive_loop-stopped qt_int [] w h = rw (h) refl
receive_loop-stopped qt_int (i ∷ is) w h = rw (h) refl

-- The worker as the loop starts.
abbrev pub in_loop : TcpWorker → TcpWorker
in_loop w = record w { socket = ready; running = true; emitted = w.emitted ++ connected ∷ [] }

-- A worker that connects and then receives packets of any types and fields, in any number, handles all
-- of them in their order and comes to an end: where the data ends, where the socket fails, which it
-- then tells by `connection_error`, and where it is stopped. What would come later is not handled, and
-- the last thing that it does is to disconnect.
pub run-disconnect :
    (qt_int : ℤ → Result ℤ) (reason : String) (ps : List Reply) (end : Option String)
    (later : List Incoming) (w : TcpWorker)
    → (run qt_int none reason (map arrived ps ++ end_of end ∷ later) w
        ≡ disconnect reason (told end (handle_all qt_int ps (in_loop w))))
      × (run qt_int none reason (map arrived ps ++ stopped ∷ later) w
          ≡ disconnect reason (handle_all qt_int ps (in_loop w)))
unfolding run connect_to_server disconnect
run-disconnect qt_int reason ps end later w =
    let (to_end, runs) = receive_loop-map qt_int ps (end_of end ∷ later) (in_loop w) refl in
    let (to_stop, _) = receive_loop-map qt_int ps (stopped ∷ later) (in_loop w) refl in
    (
      ap (disconnect reason) (to_end ∙ receive_loop-end_of qt_int end later _ runs),
      ap (disconnect reason) (to_stop ∙ receive_loop-stopped qt_int later _ runs),
    )
