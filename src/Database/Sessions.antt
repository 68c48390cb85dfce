-- ===== src/Database/Sessions.antt =====
-- database/db.py: sessions.
use g04_final_project_d_25_c.Prelude.{
  ℕ, ◌+◌, ◌*◌, Bool, true, false, ◌&&◌, not, String, ◌==◌, String_eq, Option, List, find_row,
  keep_if, update_rows, ltb,
}
use g04_final_project_d_25_c.Database.{Database, SessionRow, insert_row}

abbrev pub set_sessions : (List SessionRow → List SessionRow) → Database → Database
set_sessions f db = record db { sessions = record db.sessions { rows = f db.sessions.rows } }

-- `INSERT OR REPLACE`, by the unique token
unfoldable pub create_session : String → String → String → Database → Database
create_session token username room_name db = record db {
  sessions =
      insert_row
        (λ i. record {
          id = i;
          session_token = token;
          username = username;
          room_name = room_name;
          last_seen = db.now;
          active = true;
        })
        (record db.sessions {
          rows = keep_if (λ s. not (s.session_token == token)) db.sessions.rows;
        });
}

unfoldable pub refresh_session : String → Database → Database
refresh_session token db =
    set_sessions
      (update_rows (λ s. s.session_token == token)
        (λ s. record s { last_seen = db.now; active = true }))
      db

unfoldable pub get_session : String → Database → Option SessionRow
get_session token db = find_row (λ s. s.session_token == token && s.active) db.sessions.rows

-- `datetime.utcnow() - timedelta(minutes=minutes)` is later than `last_seen`.
abbrev pub is_older : ℕ → ℕ → SessionRow → Bool
is_older minutes now s = ltb (s.last_seen + minutes * 60_000_000) now

unfoldable pub expire_sessions_older_than : ℕ → Database → Database
expire_sessions_older_than minutes db =
    set_sessions (update_rows (is_older minutes db.now) (λ s. record s { active = false })) db

-- The statement that `SessionManager.end_session` executes.
unfoldable pub deactivate_session : String → Database → Database
deactivate_session token db =
    set_sessions (update_rows (λ s. s.session_token == token) (λ s. record s { active = false })) db
