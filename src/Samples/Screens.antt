-- ===== src/Samples/Screens.antt =====
-- Runs of the graphical client on small inputs.
use g04_final_project_d_25_c.Prelude.{
  ◌≡◌, refl, true, String_eq, some, none, [], ◌∷◌, ◌++◌, pos, List, map, keep_if, is_some,
  if◌then◌else◌,
}
use g04_final_project_d_25_c.Dict
use g04_final_project_d_25_c.Exec.{ok}
use g04_final_project_d_25_c.Protocol.{PacketType, Packet, Reply}
use g04_final_project_d_25_c.Server.{Server}
use g04_final_project_d_25_c.Server.Connections
use g04_final_project_d_25_c.Service.{send_online_users}
use g04_final_project_d_25_c.Service.Reach.{blank}
use g04_final_project_d_25_c.Samples.{outside}
use g04_final_project_d_25_c.Gui.Events.{Event}
use g04_final_project_d_25_c.Gui.Model.{pending}
use g04_final_project_d_25_c.Gui.Worker
use g04_final_project_d_25_c.Gui.Worker.{TcpWorker, new_worker, ready}
use g04_final_project_d_25_c.Gui.Worker.Receiver.{handle_packet, has_token}
use g04_final_project_d_25_c.Gui.Worker.Signing.{
  handle_packet-welcome, handle_packet-account, welcome_packet, account_packet, refusal_packet,
}
use g04_final_project_d_25_c.Gui.Worker.Loop.{run, disconnect, arrived, stopped}
use g04_final_project_d_25_c.Gui.Worker.Loop.Ended.{
  run-disconnect, handle_all, end_of, told, in_loop,
}
use g04_final_project_d_25_c.Gui.Controller.Requests.{Request, perform}
use g04_final_project_d_25_c.Gui.Controller.Dispatch.{perform-dispatch, Answers, meant}
use g04_final_project_d_25_c.Gui.State.{GuiState, new_state, on_event, on_session, set_current_room}
use g04_final_project_d_25_c.Gui.State.Reach.{Known, begin, event, choose, any_event}
use g04_final_project_d_25_c.Gui.State.Attention.{nothing_unread_here, unread_of}
use g04_final_project_d_25_c.Gui.State.Views.{rooms_show_log, messages_in, is_shown}
use g04_final_project_d_25_c.Gui.State.Progress.{transfers_fit, AllSound}
use g04_final_project_d_25_c.Gui.State.Online.{shows_online}
use g04_final_project_d_25_c.Gui.VoiceController
use g04_final_project_d_25_c.Gui.VoiceController.{
  System, opened, missing, failing, bound, new_controller,
}
use g04_final_project_d_25_c.Gui.VoiceController.Running.{
  Step, joins, leaves, toggles, records, take_steps, all_clients, running_among, count_if, lost,
  running_clients,
}
use g04_final_project_d_25_c.Gui.Delivery.{deliver}
use g04_final_project_d_25_c.Gui.Delivery.Files.{deliver-file_pending, file_packet}
use g04_final_project_d_25_c.Gui.Delivery.Online.{send_online_users-shows_online}

abbrev connected_worker : TcpWorker
connected_worker = record new_worker { socket = ready }

perform-dispatch_example :
    (p : Packet) × (w : TcpWorker) × (perform (Request.add_friend "bob") (some connected_worker)
      ≡ some w)
    × (w.sent ≡ [] ++ p ∷ [])
    × Answers outside "ann" p (meant (Request.add_friend "bob"))
perform-dispatch_example =
    perform-dispatch outside "ann" (Request.add_friend "bob") connected_worker refl

-- ann signs in, bob writes to another room and sends a file that is reported beyond its end, and ann
-- looks at that room.
abbrev signed_in : GuiState
signed_in = on_event (Event.session_restored "ann" "global") new_state

abbrev written : GuiState
written = on_event (Event.message_received "lobby" "bob" "hi" "12:00") signed_in

abbrev started : GuiState
started = on_event (Event.file_transfer_started "f1" "notes.txt" (pos 9)) written

abbrev reported : GuiState
reported = on_event (Event.file_transfer_progress "f1" (pos 250)) started

abbrev looked : GuiState
looked = set_current_room "lobby" reported

looked-Known : Known any_event looked
looked-Known = choose "lobby" reported (
    event (Event.file_transfer_progress "f1" (pos 250)) refl started (
      event (Event.file_transfer_started "f1" "notes.txt" (pos 9)) refl written (
        event (Event.message_received "lobby" "bob" "hi" "12:00") refl signed_in
          (event (Event.session_restored "ann" "global") refl new_state begin))))

nothing_unread_here_example : unread_of looked.model.current_room looked.model ≡ 0
nothing_unread_here_example = nothing_unread_here looked looked-Known

transfers_fit_example : AllSound looked.model
transfers_fit_example = transfers_fit looked looked-Known

rooms_show_log_example :
    messages_in (Dict.get "lobby" written.model.rooms)
    ≡ keep_if (is_shown "lobby") written.model.messages
rooms_show_log_example =
    rooms_show_log written
      (event (Event.message_received "lobby" "bob" "hi" "12:00") refl signed_in
        (event (Event.session_restored "ann" "global") refl new_state begin))
      "lobby"

abbrev two_here : Server
two_here = record (blank 5 "2024-01-01 00:00:00") { clients = ("bob", 4) ∷ ("ann", 3) ∷ [] }

send_online_users-shows_online_example :
    (packet : Reply) × ((send_online_users "ann" two_here).1.sent ≡ (3, packet) ∷ two_here.sent)
    × (shows_online (Dict.get "bob" (deliver ok packet connected_worker signed_in).model.users)
        ≡ is_some (Connections.get "bob" two_here))
unfolding Connections.get Dict.get on_event on_session
send_online_users-shows_online_example =
    send_online_users-shows_online ok "ann" "bob" 3 two_here connected_worker signed_in refl refl
      refl refl

deliver-file_pending_example :
    Dict.get "notes.txt"
      (deliver ok
        (file_packet "bob" "lobby" "notes.txt" 9 "/srv/uploads/notes.txt" "12:00")
        connected_worker
        looked).model.file_transfers
    ≡ some (record {
      transfer_id = "notes.txt";
      filename = "notes.txt";
      filesize = pos 9;
      progress = 0;
      status = pending;
      error_message = none;
    })
deliver-file_pending_example =
    deliver-file_pending ok "bob" "lobby" "notes.txt" 9 "/srv/uploads/notes.txt" "12:00"
      connected_worker looked refl

handle_packet-welcome_example :
    handle_packet ok
      (welcome_packet
        (if true then PacketType.session_ack else PacketType.auth_success)
        "ann"
        "t0k3n"
        "global")
      connected_worker
    ≡ record connected_worker {
      username = some "ann";
      session_token = some "t0k3n";
      emitted =
          ([] ++ Event.login_success "ann" ∷ []) ++ Event.session_restored "ann" "global" ∷ [];
    }
handle_packet-welcome_example =
    handle_packet-welcome ok true "ann" "t0k3n" "global" connected_worker refl refl refl

handle_packet-account_example :
    ((handle_packet ok (account_packet "ann" "Welcome.") connected_worker).emitted ≡ (
      if has_token connected_worker
      then ([] ++ Event.login_success "ann" ∷ []) ++ Event.session_restored "ann" "global" ∷ []
      else ([] ++ Event.register_success "ann" ∷ [])
        ++ Event.system_message "auth" "Welcome." ∷ []))
    × (has_token
          (handle_packet ok (refusal_packet "Expired.") (Worker.reconnect "t0k3n" connected_worker))
        ≡ true)
    × ((handle_packet ok (account_packet "ann" "Welcome.") (
          handle_packet ok
            (refusal_packet "Expired.")
            (Worker.reconnect "t0k3n" connected_worker))).emitted
        ≡ (((Worker.reconnect "t0k3n" connected_worker).emitted
              ++ Event.login_failed "Expired." ∷ [])
            ++ Event.login_success "ann" ∷ [])
          ++ Event.session_restored "ann" "global" ∷ [])
handle_packet-account_example =
    handle_packet-account ok "ann" "Welcome." "t0k3n" "Expired." connected_worker refl refl

abbrev no_fields : Reply
no_fields = record { type = PacketType.message; fields = [] }

-- Two packets, the second one without a name, then a failure of the socket, or a stop.
abbrev two_packets : List Reply
two_packets =
    welcome_packet PacketType.session_ack "ann" "t0k3n" "global"
    ∷ record { type = PacketType.friend_request; fields = [] }
    ∷ []

run-disconnect_example :
    (run ok none "closed"
        (map arrived two_packets ++ end_of (some "reset") ∷ arrived no_fields ∷ [])
        new_worker
      ≡ disconnect "closed" (told (some "reset") (handle_all ok two_packets (in_loop new_worker))))
    × (run ok none "closed" (map arrived two_packets ++ stopped ∷ arrived no_fields ∷ []) new_worker
        ≡ disconnect "closed" (handle_all ok two_packets (in_loop new_worker)))
run-disconnect_example =
    run-disconnect ok "closed" two_packets (some "reset") (arrived no_fields ∷ []) new_worker

-- A machine with a speaker, on which the microphone is taken.
abbrev taken_microphone : System
taken_microphone = record {
  import_error = none;
  speaker = opened;
  socket = bound 5000;
  microphone = failing "Device unavailable";
}

abbrev working_machine : System
working_machine = record taken_microphone { socket = bound 5001; microphone = missing }

-- A join that fails, one that works, a word, a change of room, and a third join.
abbrev call_steps : List Step
call_steps =
    joins taken_microphone "global"
    ∷ joins working_machine "global"
    ∷ toggles
    ∷ records (1 ∷ [])
    ∷ leaves
    ∷ joins working_machine "team"
    ∷ []

two_running : count_if true (lost call_steps (new_controller "ann")) ≡ 2
unfolding VoiceController.join VoiceController.open_voice VoiceController.open_speaker
    VoiceController.open_client VoiceController.keep_devices VoiceController.fail
    VoiceController.leave VoiceController.toggle_mute VoiceController.set_muted
    VoiceController.on_capture_frame VoiceController.stopped_client VoiceController.client_in
two_running = refl

running_clients_example :
    running_among (all_clients (take_steps call_steps (new_controller "ann")))
    ≡ count_if
        (take_steps call_steps (new_controller "ann")).connected
        (lost call_steps (new_controller "ann"))
running_clients_example = running_clients "ann" call_steps
