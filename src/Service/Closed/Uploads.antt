-- ===== src/Service/Closed/Uploads.antt =====
-- The handlers of files, images and voice keep what their writes keep.
use g04_final_project_d_25_c.Prelude.{Bytes, ℕ, String, String_eq, Option, none, some}
use g04_final_project_d_25_c.Dict.{Dict}
use g04_final_project_d_25_c.Exec.{Keeps, Keeps-modify, Keeps-pure, modify}
use g04_final_project_d_25_c.Protocol.{Packet}
use g04_final_project_d_25_c.Chunking
use g04_final_project_d_25_c.Chunking.{ChunkState}
use g04_final_project_d_25_c.Server.{Server, Env}
use g04_final_project_d_25_c.Server.Closed
use g04_final_project_d_25_c.Service.Files
use g04_final_project_d_25_c.Service.Voices
use g04_final_project_d_25_c.Service.Closed.Writes.{ClosedWrites, service_rules}

module _ {ℓ} {P : Server → Type ℓ} (w : ClosedWrites P) where
  check_target-Keeps : (o : Option String) → Keeps P (Files.check_target o)
  unfolding Files.check_target
  check_target-Keeps none = Keeps-pure _
  check_target-Keeps (some t) = search (service_rules, Closed.query-Keeps) depth 8

  begin-Keeps :
      (t f : String) (n : Option ℕ) (d : Dict String String)
      → Keeps P (modify (λ s. Files.set_chunks (Chunking.begin_transfer t f n d s.chunks) s))
  begin-Keeps t f n d = Keeps-modify _ (w.at_begin t f n d)

  chunk-Keeps :
      (t : String) (i : ℕ) (b : Bytes)
      → Keeps P (modify (λ s. Files.set_chunks (Chunking.add_chunk t i b s.chunks) s))
  chunk-Keeps t i b = Keeps-modify _ (w.at_chunk t i b)

  complete-Keeps :
      (t : String)
      → Keeps P (modify (λ s. Files.set_chunks (Chunking.complete_transfer t s.chunks).1 s))
  complete-Keeps t = Keeps-modify _ (w.at_complete t)

  cancel-Keeps :
      (t : String)
      → Keeps P (modify (λ s. Files.set_chunks (Chunking.cancel_transfer t s.chunks) s))
  cancel-Keeps t = Keeps-modify _ (w.at_cancel t)

  save_file-Keeps : (path : String) (b : Bytes) → Keeps P (modify (Files.save_file path b))
  unfolding Files.save_file
  save_file-Keeps path b = Keeps-modify _ (λ s h. w.at_files _ s h)

  pub handle_file_start-Keeps : (u : String) (p : Packet) → Keeps P (Files.handle_file_start u p)
  unfolding Files.handle_file_start
  handle_file_start-Keeps u p =
      search (service_rules, check_target-Keeps, begin-Keeps, w.at_transfer) depth 20

  pub handle_file_chunk-Keeps :
      (e : Env) (u : String) (p : Packet) → Keeps P (Files.handle_file_chunk e u p)
  unfolding Files.handle_file_chunk
  handle_file_chunk-Keeps e u p = search (service_rules, chunk-Keeps) depth 16

  announce_file-Keeps :
      (u f path : String) (n : ℕ) (r v : Option String)
      → Keeps P (Files.announce_file u f path n r v)
  unfolding Files.announce_file
  announce_file-Keeps u f path n r none =
      search (service_rules, Closed.get_members-Keeps, Closed.broadcast-Keeps) depth 10
  announce_file-Keeps u f path n r (some t) = search (service_rules, Closed.send-Keeps) depth 10

  finish_file-Keeps :
      (e : Env) (u t : String) (c : ChunkState) → Keeps P (Files.finish_file e u t c)
  unfolding Files.finish_file
  finish_file-Keeps e u t c =
      search (service_rules, cancel-Keeps, save_file-Keeps, w.at_transfer, announce_file-Keeps)
        depth 14

  pub handle_file_end-Keeps :
      (e : Env) (u : String) (p : Packet) → Keeps P (Files.handle_file_end e u p)
  unfolding Files.handle_file_end
  handle_file_end-Keeps e u p = search (service_rules, complete-Keeps, finish_file-Keeps) depth 12

  send_image-Keeps :
      (u t f : String) (n : ℕ) (path : String) → Keeps P (Files.send_image u t f n path)
  unfolding Files.send_image
  send_image-Keeps u t f n path = search (service_rules, Closed.send-Keeps) depth 10

  broadcast_image-Keeps :
      (u r f : String) (n : ℕ) (path : String) → Keeps P (Files.broadcast_image u r f n path)
  unfolding Files.broadcast_image
  broadcast_image-Keeps u r f n path =
      search (service_rules, Closed.get_members-Keeps, Closed.broadcast-Keeps) depth 10

  store_image-Keeps :
      (e : Env) (u r : String) (t : Option String) (f : String) (b : Bytes)
      → Keeps P (Files.store_image e u r t f b)
  unfolding Files.store_image
  store_image-Keeps e u r none f b =
      search
        (
          service_rules, Closed.is_room_member-Keeps, save_file-Keeps, w.at_transfer,
          broadcast_image-Keeps,
        )
        depth 14
  store_image-Keeps e u r (some t) f b =
      search (service_rules, Closed.query-Keeps, save_file-Keeps, w.at_transfer, send_image-Keeps)
        depth 14

  pub handle_image_upload-Keeps :
      (e : Env) (u : String) (p : Packet) → Keeps P (Files.handle_image_upload e u p)
  unfolding Files.handle_image_upload
  handle_image_upload-Keeps e u p = search (service_rules, store_image-Keeps) depth 14

  leave_other-Keeps : (u r : String) (o : Option String) → Keeps P (Voices.leave_other u r o)
  unfolding Voices.leave_other
  leave_other-Keeps u r none = Keeps-pure _
  leave_other-Keeps u r (some old) = search service_rules depth 8

  pub handle_voice_start-Keeps : (u : String) (p : Packet) → Keeps P (Voices.handle_voice_start u p)
  unfolding Voices.handle_voice_start
  handle_voice_start-Keeps u p =
      search (service_rules, Closed.is_room_member-Keeps, leave_other-Keeps) depth 16

  pub handle_voice_stop-Keeps : (u : String) (p : Packet) → Keeps P (Voices.handle_voice_stop u p)
  unfolding Voices.handle_voice_stop
  handle_voice_stop-Keeps u p = search service_rules depth 10

  apply_voice_status-Keeps : (u r v : String) → Keeps P (Voices.apply_voice_status u r v)
  unfolding Voices.apply_voice_status
  apply_voice_status-Keeps u r v = search service_rules depth 10

  pub handle_voice_status-Keeps :
      (u : String) (p : Packet) → Keeps P (Voices.handle_voice_status u p)
  unfolding Voices.handle_voice_status
  handle_voice_status-Keeps u p = search (service_rules, apply_voice_status-Keeps) depth 12
