-- ===== src/Service/Files.antt =====
-- server/service.py: files in chunks, and images; with storage/storage_manager.py for the paths and
-- media/image_transfer.py for the checks.
use package.text.Mathlib.Text.{starts_with}
use g04_final_project_d_25_c.Prelude.{
  Bytes, ℕ, ◌*◌, pos, ◌||◌, not, String, ◌==◌, String_eq, ℕ_eq, Option, none, some, or_else, List,
  [], ◌∷◌, length, is_some, is_none, if◌then◌else◌, join_text, not_positive, to_nat, ltb, is_empty,
  map, join_names,
}
use g04_final_project_d_25_c.Dict
use g04_final_project_d_25_c.Exec.{
  Exec, value_error, internal_error, pure, gets, modify, ensure, require, when, ◌>>=◌, ◌>>◌,
}
use g04_final_project_d_25_c.Database.Users.{find_user_id}
use g04_final_project_d_25_c.Database.Messages.{given_text}
use g04_final_project_d_25_c.Database.Transfers.{save_file_transfer}
use g04_final_project_d_25_c.Protocol.{
  Packet, string, nat, text, number, stripped_field, field_or, py_int, py_str, optional_text,
  transfer_progress, file, show_nat, image,
}
use g04_final_project_d_25_c.Chunking.{
  ChunkState, ChunkManager, begin_transfer, get_state, add_chunk, complete_transfer,
  cancel_transfer, missing_chunks, join_chunks, generate_transfer_id, receive,
}
use g04_final_project_d_25_c.Server.{Server, Env, on_db, query, timestamp}
use g04_final_project_d_25_c.Server.Connections.{send, broadcast}
use g04_final_project_d_25_c.Server.RoomManager
use g04_final_project_d_25_c.Service.{user_room, lift, send_packet, send_system}

-- `a / b` of pathlib: an absolute second part replaces the first.
unfoldable pub join_path : String → String → String
join_path a b = if starts_with b "/" then b else join_text (a ∷ "/" ∷ b ∷ [])

unfoldable pub room_upload_path : Env → String → String → String
room_upload_path env room filename = join_path (join_path env.uploads room) filename

unfoldable pub save_file : String → Bytes → Server → Server
save_file path contents s = record s { files = Dict.put path contents s.files }

abbrev pub set_chunks : ChunkManager → Server → Server
set_chunks m s = record s { chunks = m }

-- `if target_user and self.database.find_user_id(target_user) is None: raise …`
unfoldable pub check_target : Option String → Exec Server (Unit {0})
check_target none = pure tt
check_target (some target) = do
  known ← query (find_user_id target)
  ensure (target == "" || is_some known)
      (value_error (join_text ("Target user '" ∷ target ∷ "' does not exist." ∷ [])))

unfoldable pub handle_file_start : String → Packet → Exec Server (Unit {0})
handle_file_start username packet = do
  let filename = stripped_field "filename" (text "") packet
  filesize ← lift (py_int (field_or "filesize" (number (pos 0)) packet))
  target_room ← lift (optional_text "target_room" packet)
  target_user ← lift (optional_text "target_user" packet)
  let transfer_id = stripped_field "transfer_id" (text "") packet
  total_chunks ← lift (py_int (field_or "total_chunks" (number (pos 0)) packet))
  ensure
      (not
        (filename == "" || not_positive filesize || transfer_id == "" || not_positive total_chunks))
      (value_error
        "filename, filesize, transfer_id, and total_chunks are required for file transfer.")
  ensure (not (ltb (50 * 1024 * 1024) (to_nat filesize)))
      (value_error "File exceeds maximum allowed size of 50MB.")
  check_target target_user
  let metadata =
      ("sender", username)
      ∷ ("filename", filename)
      ∷ ("target_room", or_else target_room "")
      ∷ ("target_user", or_else target_user "")
      ∷ []
  modify (λ s.
      set_chunks
        (begin_transfer transfer_id filename (some (to_nat total_chunks)) metadata s.chunks) s)
  on_db (
      save_file_transfer transfer_id username target_room target_user filename (to_nat filesize) ""
        "FILE" "PENDING")
  send_system username
      ("Started file transfer '" ∷ filename ∷ "' (" ∷ show_nat (to_nat filesize) ∷ " bytes)." ∷ [])
      "global"

-- `int(len(received) / total * 100) if total else 0`
abbrev pub progress_of : Env → ChunkState → ℕ
progress_of env s = elim s.total_chunks [
  | none ↦ 0
  | some n ↦ if n == 0 then 0 else env.percent (length s.received_chunks) n
]

unfoldable pub handle_file_chunk : Env → String → Packet → Exec Server (Unit {0})
handle_file_chunk env username packet = do
  let transfer_id = stripped_field "transfer_id" (text "") packet
  chunk_index ← lift (py_int (field_or "chunk_index" (number (pos 0)) packet))
  let encoded = py_str (field_or "data" (text "") packet)
  ensure (not (transfer_id == "" || not_positive chunk_index || encoded == ""))
      (value_error "transfer_id, chunk_index and chunk data are required.")
  held ← gets (λ s. get_state transfer_id s.chunks)
  state ← require held (value_error "Transfer does not exist or has been cancelled.")
  contents ← lift (env.b64decode encoded)
  modify (λ s. set_chunks (add_chunk transfer_id (to_nat chunk_index) contents s.chunks) s)
  send_packet username transfer_progress (
      ("transfer_id", string transfer_id)
      ∷ ("progress", nat (progress_of env (receive (to_nat chunk_index) contents state)))
      ∷ ("received", nat (to_nat chunk_index))
      ∷ [])

-- `state.metadata.get(key) or None`
abbrev pub target_of : String → ChunkState → Option String
target_of key state = given_text (Dict.get key state.metadata)

-- What is sent about a file that is stored: to the user it is for, or to the members of its room.
unfoldable pub announce_file :
    String → String → String → ℕ → Option String → Option String → Exec Server (Unit {0})
announce_file username filename path size target_room (some target) = do
  now ← gets timestamp
  send target file (
      ("sender", string username)
      ∷ ("target_user", string target)
      ∷ ("filename", string filename)
      ∷ ("filesize", nat size)
      ∷ ("file_path", string path)
      ∷ ("timestamp", string now)
      ∷ [])
  send_system username ("File '" ∷ filename ∷ "' delivered to " ∷ target ∷ "." ∷ []) "global"
announce_file username filename path size target_room none = do
  current ← gets (user_room username)
  let room = or_else target_room current
  members ← RoomManager.get_members room
  now ← gets timestamp
  broadcast members file (
      ("sender", string username)
      ∷ ("room", string room)
      ∷ ("filename", string filename)
      ∷ ("filesize", nat size)
      ∷ ("file_path", string path)
      ∷ ("timestamp", string now)
      ∷ [])
  send_system username ("File '" ∷ filename ∷ "' delivered to room " ∷ room ∷ "." ∷ []) "global"

abbrev pub missing_text : List ℕ → String
missing_text indices =
    join_text ("Missing chunks: [" ∷ join_names (map show_nat indices) ∷ "]" ∷ [])

-- `handle_file_end` for a transfer that `complete_transfer` has handed out
unfoldable pub finish_file : Env → String → String → ChunkState → Exec Server (Unit {0})
finish_file env username transfer_id state = do
  when (not (is_empty (missing_chunks state)))
      (modify (λ s. set_chunks (cancel_transfer transfer_id s.chunks) s))
  ensure (is_empty (missing_chunks state)) (value_error (missing_text (missing_chunks state)))
  contents ←
      require (join_chunks 1 (or_else state.total_chunks 0) state.received_chunks) internal_error
  let target_room = target_of "target_room" state
  let target_user = target_of "target_user" state
  let path = room_upload_path env (or_else target_room username) state.filename
  modify (save_file path contents)
  on_db (
      save_file_transfer transfer_id username target_room target_user state.filename
        (length contents) path "FILE" "COMPLETE")
  announce_file username state.filename path (length contents) target_room target_user

unfoldable pub handle_file_end : Env → String → Packet → Exec Server (Unit {0})
handle_file_end env username packet = do
  let transfer_id = stripped_field "transfer_id" (text "") packet
  ensure (not (transfer_id == "")) (value_error "transfer_id is required for file end.")
  state ← gets (λ s. (complete_transfer transfer_id s.chunks).0)
  modify (λ s. set_chunks (complete_transfer transfer_id s.chunks).1 s)
  done ← require state (value_error "File transfer is not complete or missing chunks.")
  finish_file env username transfer_id done

abbrev pub max_image_size : ℕ
max_image_size = 10 * 1024 * 1024

-- media/image_transfer.py: the message of the first check that fails
unfoldable pub validate_image : Env → String → Bytes → Option String
validate_image env filename contents =
    let ext = env.suffix filename in
    if not (ext == "png" || ext == "jpg" || ext == "jpeg")
    then some (join_text ("Unsupported image format: " ∷ ext ∷ "." ∷ []))
    else if length contents == 0
    then some "Image data is empty."
    else if ltb max_image_size (length contents)
    then some "Image exceeds maximum size of 10485760 bytes."
    else none

unfoldable pub send_image : String → String → String → ℕ → String → Exec Server (Unit {0})
send_image username target filename size path = do
  now ← gets timestamp
  send target image (
      ("sender", string username)
      ∷ ("target_user", string target)
      ∷ ("filename", string filename)
      ∷ ("filesize", nat size)
      ∷ ("file_path", string path)
      ∷ ("timestamp", string now)
      ∷ [])
  send_system username ("Sent image '" ∷ filename ∷ "' to " ∷ target ∷ "." ∷ []) "global"

unfoldable pub broadcast_image : String → String → String → ℕ → String → Exec Server (Unit {0})
broadcast_image username room filename size path = do
  members ← RoomManager.get_members room
  now ← gets timestamp
  broadcast members image (
      ("sender", string username)
      ∷ ("room", string room)
      ∷ ("filename", string filename)
      ∷ ("filesize", nat size)
      ∷ ("file_path", string path)
      ∷ ("timestamp", string now)
      ∷ [])
  send_system username ("Sent image '" ∷ filename ∷ "' to room " ∷ room ∷ "." ∷ []) "global"

-- An image that passed the checks, for one user or for the members of a room.
unfoldable pub store_image :
    Env → String → String → Option String → String → Bytes → Exec Server (Unit {0})
store_image env username room (some target) filename contents = do
  known ← query (find_user_id target)
  ensure (is_some known)
      (value_error (join_text ("Target user '" ∷ target ∷ "' does not exist." ∷ [])))
  let path = room_upload_path env target filename
  modify (save_file path contents)
  now ← gets timestamp
  on_db (
      save_file_transfer (generate_transfer_id username filename now) username none (some target)
        filename (length contents) path "IMAGE_PRIVATE" "COMPLETE")
  send_image username target filename (length contents) path
store_image env username room none filename contents = do
  member ← RoomManager.is_room_member room username
  ensure member (value_error (join_text ("You are not a member of room " ∷ room ∷ "." ∷ [])))
  let path = room_upload_path env room filename
  modify (save_file path contents)
  now ← gets timestamp
  on_db (
      save_file_transfer (generate_transfer_id username filename now) username (some room) none
        filename (length contents) path "IMAGE_ROOM" "COMPLETE")
  broadcast_image username room filename (length contents) path

unfoldable pub handle_image_upload : Env → String → Packet → Exec Server (Unit {0})
handle_image_upload env username packet = do
  let filename = stripped_field "filename" (text "") packet
  current ← gets (user_room username)
  let room = stripped_field "room" (text current) packet
  target_user ← lift (optional_text "target_user" packet)
  let encoded = py_str (field_or "data" (text "") packet)
  ensure (not (filename == "" || encoded == ""))
      (value_error "Filename and image data are required.")
  contents ← lift (env.b64decode encoded)
  let problem = validate_image env filename contents
  ensure (is_none problem) (value_error (or_else problem ""))
  store_image env username room (given_text target_user) filename contents
