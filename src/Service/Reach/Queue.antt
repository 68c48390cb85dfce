-- ===== src/Service/Reach/Queue.antt =====
-- The queue of the matchmaker, in every state that the server gets into.
use g04_final_project_d_25_c.Prelude.{◌≤◌, length, arith}
use g04_final_project_d_25_c.Server.{Server}
use g04_final_project_d_25_c.Server.Matchmaker.{leave_queue}
use g04_final_project_d_25_c.Server.Matchmaker.Laws.{take_match-waiting, length-remove_first-le}
use g04_final_project_d_25_c.Service.Closed.OfFields
use g04_final_project_d_25_c.Service.Closed.OfFields.{ClosedFields}
use g04_final_project_d_25_c.Service.Reach.{Reach, always}

-- At most one user waits.
abbrev OneWaits : Server → Type 0
OneWaits s = length s.queue ≤ 1

fields : ClosedFields OneWaits
unfolding leave_queue
fields = record {
  at_db = λ d s h. h;
  at_sent = λ x s h. h;
  at_clients = λ x s h. h;
  at_status = λ x s h. h;
  at_rooms = λ x s h. h;
  at_sessions = λ x s h. h;
  at_user_rooms = λ x s h. h;
  at_files = λ x s h. h;
  at_writable = λ x s h. h;
  at_voice_join = λ n u k s h. h;
  at_voice_leave = λ n u s h. h;
  at_muted = λ n u b s h. h;
  at_speaking = λ n u b s h. h;
  at_match = λ u s h. take_match-waiting s.queue u h;
  at_leave_queue = λ u s h. omega (arith, length-remove_first-le u s.queue);
  at_begin = λ t f n d s h. h;
  at_chunk = λ t i b s h. h;
  at_complete = λ t s h. h;
  at_cancel = λ t s h. h;
}

-- In every state that the server can get into, at most one user waits in the queue for a match.
pub one_waits : (s : Server) → Reach s → length s.queue ≤ 1
one_waits s r = always (OfFields.writes fields) (λ n t s h. h) (λ n t. omega arith) s r
