-- ===== src/Client/Uploads.antt =====
-- client/client_app.py: sending an image, and a file in chunks.
pub mod Chunks
use g04_final_project_d_25_c.Prelude.{
  Bytes, ℕ, zero, suc, ◌*◌, ◌+◌, String, List, [], ◌∷◌, pos, length, take, drop,
}
use g04_final_project_d_25_c.Exec.{
  PyError, value_error, internal_error, pure, gets, catch, for_each, ◌>>=◌, ◌>>◌,
}
use g04_final_project_d_25_c.Dict.{Dict}
use g04_final_project_d_25_c.Protocol.{PacketType, text, number, show_nat}
use g04_final_project_d_25_c.Client.{
  Machine, FileRead, missing, unreadable, contents, ConvoxClient, Action, say, send_packet,
}

-- `CHUNK_SIZE`
abbrev pub chunk_size : ℕ
chunk_size = 32 * 1024

-- `[data[i : i + size] for i in range(0, len(data), size)]`; there are no more chunks than bytes.
unfoldable pub chunks_within : ℕ → ℕ → Bytes → List Bytes
chunks_within zero size data_bytes = []
chunks_within (suc f) size [] = []
chunks_within (suc f) size (b ∷ bs) = take size (b ∷ bs) ∷ chunks_within f size (drop size (b ∷ bs))

unfoldable pub chunks_of : ℕ → Bytes → List Bytes
unfolding chunks_within
chunks_of size data_bytes = chunks_within (length data_bytes) size data_bytes

-- `enumerate(chunks, start=i)`
abbrev pub enumerate : ℕ → List Bytes → Dict ℕ Bytes
enumerate i [] = []
enumerate i (c ∷ cs) = (i, c) ∷ enumerate (suc i) cs

abbrev pub error_line : PyError → String
error_line (value_error reason) = reason
error_line internal_error = ""

abbrev pub send_chunk : Machine → String → ℕ × Bytes → Action
send_chunk machine transfer_id (i, chunk) = send_packet PacketType.file_chunk (
    ("transfer_id", text transfer_id)
    ∷ ("chunk_index", number (pos i))
    ∷ ("data", text (machine.b64encode chunk))
    ∷ [])

abbrev pub send_chunks : Machine → String → Bytes → List Bytes → Action
send_chunks machine path data_bytes chunks = do
  room ← gets (λ c. c.current_room)
  send_packet PacketType.file_start (
      ("transfer_id", text machine.uuid)
      ∷ ("filename", text (machine.file_name path))
      ∷ ("filesize", number (pos (length data_bytes)))
      ∷ ("target_room", text room)
      ∷ ("total_chunks", number (pos (length chunks)))
      ∷ [])
  for_each (enumerate 1 chunks) (send_chunk machine machine.uuid)
  send_packet PacketType.file_end (("transfer_id", text machine.uuid) ∷ [])
  say (
      "File upload complete: "
      ∷ machine.file_name path
      ∷ " ("
      ∷ show_nat (length data_bytes)
      ∷ " bytes in "
      ∷ show_nat (length chunks)
      ∷ " chunks)"
      ∷ [])

unfoldable pub send_file : Machine → String → Action
unfolding say send_packet chunks_of show_nat catch gets for_each ◌>>=◌
send_file machine path = elim (machine.read path) [
  | missing ↦ say ("File not found: " ∷ path ∷ [])
  | unreadable reason ↦ say ("Error sending file: " ∷ reason ∷ [])
  | contents data_bytes ↦
      catch (send_chunks machine path data_bytes (chunks_of chunk_size data_bytes))
        (λ e. say ("Error sending file: " ∷ error_line e ∷ []))
]

abbrev pub send_image_data : Machine → String → Bytes → Action
send_image_data machine path data_bytes = do
  room ← gets (λ c. c.current_room)
  send_packet PacketType.image (
      ("filename", text (machine.file_name path))
      ∷ ("room", text room)
      ∷ ("data", text (machine.b64encode data_bytes))
      ∷ [])
  say (
      "Sending image: "
      ∷ machine.file_name path
      ∷ " ("
      ∷ show_nat (length data_bytes)
      ∷ " bytes)"
      ∷ [])

unfoldable pub send_image : Machine → String → Action
unfolding say send_packet show_nat catch gets ◌>>=◌
send_image machine path = elim (machine.read path) [
  | missing ↦ say ("Image file not found: " ∷ path ∷ [])
  | unreadable reason ↦ say ("Error sending image: " ∷ reason ∷ [])
  | contents data_bytes ↦
      catch (send_image_data machine path data_bytes)
        (λ e. say ("Error sending image: " ∷ error_line e ∷ []))
]
