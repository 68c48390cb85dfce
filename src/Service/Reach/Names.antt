-- ===== src/Service/Reach/Names.antt =====
-- The names of the accounts, in every state that the server gets into.
use g04_final_project_d_25_c.Prelude.{refl, String_eq, ◌==◌, some, IsNodup}
use g04_final_project_d_25_c.Database.Users.{update_user_status}
use g04_final_project_d_25_c.Database.Users.Unique.{
  HasUniqueNames, usernames, insert_user-HasUniqueNames, update_users-HasUniqueNames,
}
use g04_final_project_d_25_c.Database.Friends.Symmetry.{users-befriended}
use g04_final_project_d_25_c.Server.{Server}
use g04_final_project_d_25_c.Service.Closed.OfDatabase
use g04_final_project_d_25_c.Service.Closed.OfDatabase.{ClosedTables}
use g04_final_project_d_25_c.Service.Reach.{Reach, always}

tables : ClosedTables HasUniqueNames
unfolding update_user_status
tables = record {
  at_insert_user = insert_user-HasUniqueNames;
  at_password = λ n p d h.
      update_users-HasUniqueNames (λ u. u.username == n) (λ u. record u { password_hash = some p })
        d (λ u. refl) h;
  at_user_status = λ n v d h.
      update_users-HasUniqueNames (λ u. u.username == n) (λ u. record u { status = v }) d
        (λ u. refl) h;
  at_befriend = λ a b d h. rw (users-befriended a b d) h;
  at_unfriend = λ a b d h. h;
  at_requests = λ x d h. h;
  at_rooms = λ x d h. h;
  at_members = λ x d h. h;
  at_invites = λ x d h. h;
  at_messages = λ x d h. h;
  at_broadcasts = λ x d h. h;
  at_transfers = λ x d h. h;
  at_sessions = λ x d h. h;
}

-- In every state that the server can get into, no two rows of the table of users have the same name.
pub names_unique : (s : Server) → Reach s → IsNodup (usernames s.db.users.rows)
names_unique s r = always (OfDatabase.writes tables) (λ n t s h. h) (λ n t. tt) s r
