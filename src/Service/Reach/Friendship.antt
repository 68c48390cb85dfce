-- ===== src/Service/Reach/Friendship.antt =====
-- Friendships, in every state that the server gets into. The two rows of a friendship are two INSERTs
-- with a commit each and no lock, so that this is about packets that are handled one after the other.
use g04_final_project_d_25_c.Prelude.{ℕ, ◌≡◌, refl}
use g04_final_project_d_25_c.Database.Friends.{has_friendship}
use g04_final_project_d_25_c.Database.Friends.Symmetry.{
  IsSymmetric, befriended-IsSymmetric, drop_friendship-IsSymmetric,
}
use g04_final_project_d_25_c.Database.Users.{update_user_status}
use g04_final_project_d_25_c.Server.{Server}
use g04_final_project_d_25_c.Service.Closed.OfDatabase
use g04_final_project_d_25_c.Service.Closed.OfDatabase.{ClosedTables}
use g04_final_project_d_25_c.Service.Reach.{Reach, always}

tables : ClosedTables IsSymmetric
unfolding update_user_status
tables = record {
  at_insert_user = λ n v p d e h. h;
  at_password = λ n p d h. h;
  at_user_status = λ n v d h. h;
  at_befriend = befriended-IsSymmetric;
  at_unfriend = drop_friendship-IsSymmetric;
  at_requests = λ x d h. h;
  at_rooms = λ x d h. h;
  at_members = λ x d h. h;
  at_invites = λ x d h. h;
  at_messages = λ x d h. h;
  at_broadcasts = λ x d h. h;
  at_transfers = λ x d h. h;
  at_sessions = λ x d h. h;
}

-- In every state that the server gets into where each packet is handled to its end before the next one
-- is begun, a friendship is stored in one direction exactly when it is stored in the other.
pub friends_both_ways :
    (s : Server) (a b : ℕ) → Reach s → has_friendship a b s.db ≡ has_friendship b a s.db
friends_both_ways s a b r =
    always (OfDatabase.writes tables) (λ n t s h. h) (λ n t x y. refl) s r a b
