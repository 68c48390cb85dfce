-- ===== src/Database/Broadcasts.antt =====
-- database/db.py: scheduled broadcasts.
use g04_final_project_d_25_c.Prelude.{
  ℕ, true, false, ◌&&◌, not, String, ◌==◌, ℕ_eq, List, keep_if, update_rows,
}
use g04_final_project_d_25_c.Exec.{Exec, modify, ◌>>=◌}
use g04_final_project_d_25_c.Database.{Database, BroadcastRow, insert_row, text_le, sort_by}
use g04_final_project_d_25_c.Database.Users.{get_or_create_user}

abbrev pub insert_broadcast : String → String → String → ℕ → Database → Database
insert_broadcast target_room message send_time creator db = record db {
  broadcasts =
      insert_row
        (λ i. record {
          id = i;
          target_room = target_room;
          message = message;
          send_time = send_time;
          sent = false;
          created_by = creator;
          created_at = db.now;
        })
        db.broadcasts;
}

unfoldable pub create_scheduled_broadcast :
    String → String → String → String → Exec Database (Unit {0})
create_scheduled_broadcast target_room message send_time created_by = do
  creator ← get_or_create_user created_by
  modify (insert_broadcast target_room message send_time creator)

unfoldable pub fetch_due_broadcasts : Database → List BroadcastRow
fetch_due_broadcasts db =
    sort_by (λ b. b.send_time)
      (keep_if (λ b. not b.sent && text_le b.send_time db.now_text) db.broadcasts.rows)

unfoldable pub mark_broadcast_sent : ℕ → Database → Database
mark_broadcast_sent i db = record db {
  broadcasts = record db.broadcasts {
    rows = update_rows (λ b. b.id == i) (λ b. record b { sent = true }) db.broadcasts.rows;
  };
}
