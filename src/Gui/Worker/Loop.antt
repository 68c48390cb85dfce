-- ===== src/Gui/Worker/Loop.antt =====
-- gui/controllers/tcp_controller.py, TCPWorker.run: the connection, the loop and its end.
pub mod Ended
use g04_final_project_d_25_c.Prelude.{
  Bool, true, false, String, Option, none, some, List, [], ◌∷◌, ℤ, join_text, if◌then◌else◌,
}
use g04_final_project_d_25_c.Exec.{Result}
use g04_final_project_d_25_c.Protocol.{Reply}
use g04_final_project_d_25_c.Gui.Events.{connected, disconnected, connection_error}
use g04_final_project_d_25_c.Gui.Worker.{TcpWorker, absent, ready, failing, emitting}
use g04_final_project_d_25_c.Gui.Worker.Receiver.{handle_packet}

-- What the loop gets from its socket: a packet, the end of the data, the text of an OSError; or the
-- other thread has set `running` to false meanwhile.
pub data Incoming : Type 0 where
  arrived : (packet : Reply) → Incoming
  closed : Incoming
  broken : (reason : String) → Incoming
  stopped : Incoming

-- A closed socket fails from then on, with the reason that the system gives.
unfoldable pub disconnect : String → TcpWorker → TcpWorker
disconnect reason w =
    emitting disconnected (record w {
      running = false;
      socket = elim w.socket [ absent ↦ absent | _ ↦ failing reason ];
    })

-- The `while` loop, until the socket has nothing more.
unfoldable pub receive_loop : (ℤ → Result ℤ) → List Incoming → TcpWorker → TcpWorker
unfolding handle_packet
receive_loop qt_int [] w = w
receive_loop qt_int (i ∷ is) w = elim w.running [
  | false ↦ w
  | true ↦ (elim i [
    | arrived packet ↦ receive_loop qt_int is (handle_packet qt_int packet w)
    | closed ↦ w
    | broken reason ↦ emitting (connection_error reason) w
    | stopped ↦ receive_loop qt_int is (record w { running = false })
  ])
]

-- Where `connect` fails, the socket is there and sends nothing, for the reason that the system gives.
unfoldable pub connect_to_server : Option String → String → TcpWorker → Bool × TcpWorker
unfolding join_text
connect_to_server none reason w = (true, emitting connected (record w { socket = ready }))
connect_to_server (some failure) reason w = (
  false,
  emitting (connection_error (join_text ("Connection failed: " ∷ failure ∷ [])))
      (record w { socket = failing reason }),
)

-- `run`: the connection comes about, or fails with a text; then the loop.
unfoldable pub run : (ℤ → Result ℤ) → Option String → String → List Incoming → TcpWorker → TcpWorker
unfolding connect_to_server receive_loop disconnect
run qt_int failure reason is w =
    let (here, w') = connect_to_server failure reason w in
    if here then disconnect reason (receive_loop qt_int is (record w' { running = true })) else w'
