-- ===== src/Server/State.antt =====
-- server/service.py, __init__: the objects that one service holds. The managers share the database
-- and the connections, so their fields stand in one record.
use g04_final_project_d_25_c.Prelude.{Bytes, ℕ, ℤ, Bool, String, Option, List, join_text, [], ◌∷◌}
use g04_final_project_d_25_c.Dict.{Dict}
use g04_final_project_d_25_c.Exec.{Exec, Result, gets, modify, within}
use g04_final_project_d_25_c.Database.{Database}
use g04_final_project_d_25_c.Protocol.{Reply}
use g04_final_project_d_25_c.Chunking.{ChunkManager}
use g04_final_project_d_25_c.Voice.Rooms.{VoiceRooms}

-- presence/status_manager.py
pub data UserStatus : Type 0 where
  online offline in_room in_match do_not_disturb : UserStatus

-- rooms/room_manager.py. A set is the list of its members; its order is not observed.
pub record Room : Type 0 where
  pub name : String
  pub owner : String
  pub visibility : String
  pub max_capacity : ℤ
  pub invite_only : Bool
  pub password : Option String
  pub members : List String
  pub invites : List String

-- A socket is a number; `writable` says whether `sendall` on it succeeds, and `sent` holds what it
-- has taken, the last first. `files` holds the contents of the stored files by their paths.
pub record Server : Type 0 where
  pub db : Database
  pub clients : Dict String ℕ
  pub writable : ℕ → Bool
  pub sent : List (ℕ × Reply)
  pub status_map : Dict String UserStatus
  pub rooms : Dict String Room
  pub queue : List String
  pub chunks : ChunkManager
  pub sessions : Dict String String
  pub user_rooms : Dict String String
  pub voice_rooms : VoiceRooms
  pub files : Dict String Bytes

-- What the program takes from outside while it handles one packet: `uuid4` as text and the first
-- eight hexadecimal digits of another, `os.urandom`, PBKDF2, base64, `int(a / b * 100)` of floating
-- point, the check of `strptime`, the suffix of pathlib, and the folder of the uploads.
pub record Env : Type 0 where
  pub uuid : String
  pub hex8 : String
  pub salt : Bytes
  pub pbkdf2 : String → Bytes → ℕ → ℕ → Bytes
  pub b64decode : String → Result Bytes
  pub percent : ℕ → ℕ → ℕ
  pub is_send_time : String → Bool
  pub suffix : String → String
  pub uploads : String

abbrev pub set_db : Database → Server → Server
set_db d s = record s { db = d }

-- A method of the database that may raise.
unfoldable pub on_db {κ} : {A : Type κ} → Exec Database A → Exec Server A
on_db m = within (λ s. s.db) set_db m

-- A query, and a statement that cannot fail.
unfoldable pub query {κ} : {A : Type κ} → (Database → A) → Exec Server A
query f = gets (λ s. f s.db)

unfoldable pub update_db : (Database → Database) → Exec Server (Unit {0})
update_db f = modify (λ s. record s { db = f s.db })

-- utils/helper.py: `timestamp`
unfoldable pub timestamp : Server → String
timestamp s = join_text (s.db.now_text ∷ " UTC" ∷ [])
