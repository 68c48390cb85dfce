-- ===== src/Gui/Delivery/Files.antt =====
-- A file that has arrived.
use g04_final_project_d_25_c.Prelude.{
  ℕ, ℤ, pos, String, none, some, [], ◌∷◌, ◌≡◌, ◌==◌, String_eq, Bool-cases, inl, inr,
}
use g04_final_project_d_25_c.Dict.{get, get-put_self}
use g04_final_project_d_25_c.Exec.{Result, ok, require}
use g04_final_project_d_25_c.Protocol.{PacketType, Reply, string, nat}
use g04_final_project_d_25_c.Gui.Model.{pending}
use g04_final_project_d_25_c.Gui.Application.{add_file_transfer, complete_file_transfer}
use g04_final_project_d_25_c.Gui.Events.{
  file_transfer_complete, image_received, file_transfer_started,
}
use g04_final_project_d_25_c.Gui.Worker.{TcpWorker}
use g04_final_project_d_25_c.Gui.Worker.Receiver.{handle_packet, on_packet, packet_branch, on_file}
use g04_final_project_d_25_c.Gui.State.{
  GuiState, on_events, on_event, on_transfer_complete, on_image_or_file, on_transfer_start,
}
use g04_final_project_d_25_c.Gui.Delivery.{deliver}

-- What `announce_file` sends to the members of a room.
abbrev pub file_packet : String → String → String → ℕ → String → String → Reply
file_packet sender room filename size path now = record {
  type = PacketType.file;
  fields =
      ("sender", string sender)
      ∷ ("room", string room)
      ∷ ("filename", string filename)
      ∷ ("filesize", nat size)
      ∷ ("file_path", string path)
      ∷ ("timestamp", string now)
      ∷ [];
}

-- A file that was sent to a room and has arrived is shown as a transfer of its own name that is pending
-- with no progress, also where the client knew it as complete.
pub deliver-file_pending :
    (qt_int : ℤ → Result ℤ) (sender room filename : String) (size : ℕ) (path now : String)
    (w : TcpWorker) (g : GuiState)
    → qt_int (pos size) ≡ ok (pos size)
    → get filename
        (deliver qt_int (file_packet sender room filename size path now) w g).model.file_transfers
      ≡ some (record {
        transfer_id = filename;
        filename = filename;
        filesize = pos size;
        progress = 0;
        status = pending;
        error_message = none;
      })
unfolding deliver require on_transfer_start add_file_transfer on_event on_image_or_file
    on_transfer_complete
deliver-file_pending qt_int sender room filename size path now w g h =
    elim (Bool-cases (room == "")) [
      | inl e ↦
          rw (deliver, handle_packet, on_packet, packet_branch, on_file, e, h) (started_last sender)
      | inr e ↦
          rw (deliver, handle_packet, on_packet, packet_branch, on_file, e, h) (started_last room)
    ]
  where
    started_last :
        (r : String)
        → get filename
            (on_events
              (file_transfer_complete filename
                ∷ image_received r filename path
                ∷ file_transfer_started filename filename (pos size)
                ∷ [])
              g).model.file_transfers
          ≡ some (record {
            transfer_id = filename;
            filename = filename;
            filesize = pos size;
            progress = 0;
            status = pending;
            error_message = none;
          })
    started_last r =
        get-put_self filename _ (complete_file_transfer filename g.model).file_transfers
