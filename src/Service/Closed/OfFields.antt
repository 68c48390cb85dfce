-- ===== src/Service/Closed/OfFields.antt =====
-- A property of the server that no query or statement of the database can change: what it takes for
-- it to be closed under the writes of the service.
use g04_final_project_d_25_c.Prelude.{Bytes, ℕ, Bool, String, Option, List, [], ◌∷◌, ◌++◌}
use g04_final_project_d_25_c.Dict.{Dict}
use g04_final_project_d_25_c.Exec.{Exec, Keeps, Keeps-modify, within}
use g04_final_project_d_25_c.Database.{Database}
use g04_final_project_d_25_c.Protocol.{Reply}
use g04_final_project_d_25_c.Chunking
use g04_final_project_d_25_c.Voice.Rooms.{add_to_room, remove_from_room, set_muted, set_speaking}
use g04_final_project_d_25_c.Server.{Server, Room, UserStatus, set_db, on_db, update_db}
use g04_final_project_d_25_c.Server.Matchmaker.{take_match, leave_queue}
use g04_final_project_d_25_c.Server.Closed.{Closed}
use g04_final_project_d_25_c.Service.Files.{set_chunks}
use g04_final_project_d_25_c.Service.Voices.{change_room}
use g04_final_project_d_25_c.Service.Closed.Writes.{ClosedWrites}

pub record ClosedFields {ℓ} (P : Server → Type ℓ) : Type ℓ where
  pub at_db : (d : Database) (s : Server) → P s → P (set_db d s)
  pub at_sent : (x : List (ℕ × Reply)) (s : Server) → P s → P (record s { sent = x })
  pub at_clients : (x : Dict String ℕ) (s : Server) → P s → P (record s { clients = x })
  pub at_status : (x : Dict String UserStatus) (s : Server) → P s → P (record s { status_map = x })
  pub at_rooms : (x : Dict String Room) (s : Server) → P s → P (record s { rooms = x })
  pub at_sessions : (x : Dict String String) (s : Server) → P s → P (record s { sessions = x })
  pub at_user_rooms : (x : Dict String String) (s : Server) → P s → P (record s { user_rooms = x })
  pub at_files : (x : Dict String Bytes) (s : Server) → P s → P (record s { files = x })
  pub at_writable : (x : ℕ → Bool) (s : Server) → P s → P (record s { writable = x })
  pub at_voice_join :
      (n u : String) (k : ℕ) (s : Server)
      → P s
      → P (record s { voice_rooms = add_to_room n u k s.voice_rooms })
  pub at_voice_leave :
      (n u : String) (s : Server)
      → P s
      → P (record s { voice_rooms = remove_from_room n u s.voice_rooms })
  pub at_muted :
      (n u : String) (b : Bool) (s : Server)
      → P s
      → P (record s { voice_rooms = change_room n (set_muted u b) s.voice_rooms })
  pub at_speaking :
      (n u : String) (b : Bool) (s : Server)
      → P s
      → P (record s { voice_rooms = change_room n (set_speaking u b) s.voice_rooms })
  pub at_match :
      (u : String) (s : Server) → P s → P (record s { queue = (take_match (s.queue ++ u ∷ [])).1 })
  pub at_leave_queue : (u : String) (s : Server) → P s → P (leave_queue u s)
  pub at_begin :
      (t f : String) (n : Option ℕ) (d : Dict String String) (s : Server)
      → P s
      → P (set_chunks (Chunking.begin_transfer t f n d s.chunks) s)
  pub at_chunk :
      (t : String) (i : ℕ) (b : Bytes) (s : Server)
      → P s
      → P (set_chunks (Chunking.add_chunk t i b s.chunks) s)
  pub at_complete :
      (t : String) (s : Server) → P s → P (set_chunks (Chunking.complete_transfer t s.chunks).1 s)
  pub at_cancel :
      (t : String) (s : Server) → P s → P (set_chunks (Chunking.cancel_transfer t s.chunks) s)

module _ {ℓ} {P : Server → Type ℓ} (c : ClosedFields P) where
  on_db-Keeps {κ} : {A : Type κ} (m : Exec Database A) → Keeps P (on_db m)
  unfolding on_db within
  on_db-Keeps m = record { after = λ s h. c.at_db _ s h }

  update_db-Keeps : (f : Database → Database) → Keeps P (update_db f)
  unfolding update_db
  update_db-Keeps f = Keeps-modify _ (λ s h. c.at_db _ s h)

  base : Closed P
  base = record {
    at_sent = c.at_sent;
    at_clients = c.at_clients;
    at_status = c.at_status;
    at_rooms = c.at_rooms;
    at_sessions = c.at_sessions;
    at_user = λ n. on_db-Keeps _;
    at_user_status = λ n v. update_db-Keeps _;
    at_request = λ a b. on_db-Keeps _;
    at_response = λ a b v. on_db-Keeps _;
    at_unfriend = λ a b. update_db-Keeps _;
    at_new_room = λ n o v k i p. on_db-Keeps _;
    at_member = λ r u. on_db-Keeps _;
    at_no_member = λ r u. update_db-Keeps _;
    at_no_room = λ r. update_db-Keeps _;
    at_invite = λ r a b. on_db-Keeps _;
    at_expiry = λ n. update_db-Keeps _;
    at_refresh = λ x. update_db-Keeps _;
    at_deactivate = λ x. update_db-Keeps _;
    at_session = λ x u r. update_db-Keeps _;
  }

  pub writes : ClosedWrites P
  writes = record {
    base = base;
    at_user_rooms = c.at_user_rooms;
    at_files = c.at_files;
    at_writable = c.at_writable;
    at_voice_join = c.at_voice_join;
    at_voice_leave = c.at_voice_leave;
    at_muted = c.at_muted;
    at_speaking = c.at_speaking;
    at_match = c.at_match;
    at_leave_queue = c.at_leave_queue;
    at_begin = c.at_begin;
    at_chunk = c.at_chunk;
    at_complete = c.at_complete;
    at_cancel = c.at_cancel;
    at_password = λ u h. on_db-Keeps _;
    at_message = λ a b k r v. on_db-Keeps _;
    at_transfer = λ x u r v f n p k w. on_db-Keeps _;
    at_schedule = λ r m x u. on_db-Keeps _;
    at_mark = λ i. update_db-Keeps _;
  }
