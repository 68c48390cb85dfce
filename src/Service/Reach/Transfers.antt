-- ===== src/Service/Reach/Transfers.antt =====
-- The transfers in progress, in every state that the server gets into.
use g04_final_project_d_25_c.Prelude.{◌≤◌, ◌≡◌, refl, length, arith}
use g04_final_project_d_25_c.Chunking.{max_chunk_buffer}
use g04_final_project_d_25_c.Chunking.Bounds
use g04_final_project_d_25_c.Chunking.Bounds.{IsBounded}
use g04_final_project_d_25_c.Server.{Server}
use g04_final_project_d_25_c.Server.Matchmaker.{leave_queue}
use g04_final_project_d_25_c.Service.Closed.OfFields
use g04_final_project_d_25_c.Service.Closed.OfFields.{ClosedFields}
use g04_final_project_d_25_c.Service.Reach.{Reach, always}

-- The limit never changes, and it holds.
abbrev IsLimited : Server → Type 0
IsLimited s = IsBounded s.chunks × (s.chunks.max_buffer ≡ max_chunk_buffer)

fields : ClosedFields IsLimited
unfolding leave_queue
fields = record {
  at_db = λ d s h. h;
  at_sent = λ x s h. h;
  at_clients = λ x s h. h;
  at_status = λ x s h. h;
  at_rooms = λ x s h. h;
  at_sessions = λ x s h. h;
  at_user_rooms = λ x s h. h;
  at_files = λ x s h. h;
  at_writable = λ x s h. h;
  at_voice_join = λ n u k s h. h;
  at_voice_leave = λ n u s h. h;
  at_muted = λ n u b s h. h;
  at_speaking = λ n u b s h. h;
  at_match = λ u s h. h;
  at_leave_queue = λ u s h. h;
  at_begin = λ t f n d s h. (
    Bounds.begin_transfer-IsBounded t f n d s.chunks h.0,
    rw (Bounds.begin_transfer-limit t f n d s.chunks) h.1,
  );
  at_chunk = λ t i b s h. (
    Bounds.add_chunk-IsBounded t i b s.chunks h.0,
    rw (Bounds.add_chunk-limit t i b s.chunks) h.1,
  );
  at_complete = λ t s h. (
    Bounds.complete_transfer-IsBounded t s.chunks h.0,
    rw (Bounds.complete_transfer-limit t s.chunks) h.1,
  );
  at_cancel = λ t s h. (
    Bounds.cancel_transfer-IsBounded t s.chunks h.0,
    rw (Bounds.cancel_transfer-limit t s.chunks) h.1,
  );
}

-- In every state that the server can get into, at most twenty file transfers are in progress.
pub transfers_bounded : (s : Server) → Reach s → length s.chunks.transfers ≤ 20
transfers_bounded s r =
    let h =
      always (OfFields.writes fields) (λ n t s h. h) (λ n t. ((omega arith, omega arith), refl)) s
        r in
    omega (arith, h.0.0, h.1)
