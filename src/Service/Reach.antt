-- ===== src/Service/Reach.antt =====
-- The states that the server can get into. A step is one packet of a handshake, one packet of a client
-- that is signed in, the end of a connection, a round of the scheduler, a change of the clock, or a
-- change of the sockets that still take data. The steps of all clients come in any order, and each is
-- taken to its end before the next one; the threads of the source can do parts of two handlers in turn,
-- where no lock keeps them from it.
pub mod Queue
pub mod Transfers
pub mod Friendship
pub mod Names
pub mod VoiceRooms
use g04_final_project_d_25_c.Prelude.{ℕ, Bool, true, false, String, Option, []}
use g04_final_project_d_25_c.Exec.{Keeps}
use g04_final_project_d_25_c.Database.{Database, ensure_schema}
use g04_final_project_d_25_c.Protocol.{PacketType, Packet}
use g04_final_project_d_25_c.Chunking.{new_manager, max_chunk_buffer}
use g04_final_project_d_25_c.Server.{Server, Env}
use g04_final_project_d_25_c.Server.Closed
use g04_final_project_d_25_c.Server.RoomManager.{init_rooms}
use g04_final_project_d_25_c.Service.Routing.{route_packet}
use g04_final_project_d_25_c.Service.Handshake.{handshake_step, finish}
use g04_final_project_d_25_c.Service.Broadcasts.{run_due}
use g04_final_project_d_25_c.Service.Closed.Writes.{ClosedWrites}
use g04_final_project_d_25_c.Service.Closed.Handlers
use g04_final_project_d_25_c.Service.Closed.Connection

-- `__init__` of the service, on a new database and with sockets that all work, before the rooms.
abbrev pub blank : ℕ → String → Server
blank now now_text = record {
  db = ensure_schema now now_text;
  clients = [];
  writable = λ n. true;
  sent = [];
  status_map = [];
  rooms = [];
  queue = [];
  chunks = new_manager max_chunk_buffer;
  sessions = [];
  user_rooms = [];
  voice_rooms = [];
  files = [];
}

abbrev pub set_clock : ℕ → String → Server → Server
set_clock now now_text s = record s { db = record s.db { now = now; now_text = now_text } }

abbrev pub set_writable : (ℕ → Bool) → Server → Server
set_writable w s = record s { writable = w }

pub data Reach : Server → Type 0 where
  start : (now : ℕ) (now_text : String) → Reach (init_rooms (blank now now_text)).1
  greet :
      (env : Env) (conn : ℕ) (t : Option PacketType) (p : Packet) (s : Server)
      → Reach s
      → Reach (handshake_step env conn t p s).1
  packet :
      (env : Env) (p : Packet) (username : String) (s : Server)
      → Reach s
      → Reach (route_packet env p username s).1
  hangup : (conn : ℕ) (username : String) (s : Server) → Reach s → Reach (finish conn username s).1
  scheduler : (s : Server) → Reach s → Reach (run_due s).1
  clock : (now : ℕ) (now_text : String) (s : Server) → Reach s → Reach (set_clock now now_text s)
  sockets : (w : ℕ → Bool) (s : Server) → Reach s → Reach (set_writable w s)

-- A property that the writes and the clock keep, and that a new server has, always holds.
module _ {ℓ} {P : Server → Type ℓ} (w : ClosedWrites P) where
  pub always :
      ((n : ℕ) (t : String) (s : Server) → P s → P (set_clock n t s))
      → ((n : ℕ) (t : String) → P (blank n t))
      → (s : Server) → Reach s
      → P s
  always k b _ (start n t) = (Closed.init_rooms-Keeps w.base).after _ (b n t)
  always k b _ (greet e n t p s r) =
      (Connection.handshake_step-Keeps w e n t p).after s (always k b s r)
  always k b _ (packet e p u s r) = (Handlers.route_packet-Keeps w e p u).after s (always k b s r)
  always k b _ (hangup n u s r) = (Connection.finish-Keeps w n u).after s (always k b s r)
  always k b _ (scheduler s r) = (Handlers.run_due-Keeps w).after s (always k b s r)
  always k b _ (clock n t s r) = k n t s (always k b s r)
  always k b _ (sockets x s r) = w.at_writable x s (always k b s r)
