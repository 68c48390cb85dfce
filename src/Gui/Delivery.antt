-- ===== src/Gui/Delivery.antt =====
-- A packet from the server, through the worker, into what the client knows: the signals of the worker
-- go to the state manager in the order in which they are raised.
pub mod Files
pub mod Online
use g04_final_project_d_25_c.Prelude.{[], ℤ}
use g04_final_project_d_25_c.Exec.{Result}
use g04_final_project_d_25_c.Protocol.{Reply}
use g04_final_project_d_25_c.Gui.Worker.{TcpWorker}
use g04_final_project_d_25_c.Gui.Worker.Receiver.{handle_packet}
use g04_final_project_d_25_c.Gui.State.{GuiState, on_events}

unfoldable pub deliver : (ℤ → Result ℤ) → Reply → TcpWorker → GuiState → GuiState
unfolding handle_packet on_events
deliver qt_int packet w g =
    on_events (handle_packet qt_int packet (record w { emitted = [] })).emitted g
