-- ===== src/Database/Friends/Answers.antt =====
-- database/db.py: what the answer to a friend request, and the end of a friendship, change.
use g04_final_project_d_25_c.Prelude.{
  ℕ, ◌≡◌, refl, ap, ◌∙◌, Bool, true, false, ◌&&◌, ◌||◌, not, String, String_eq, ℕ_eq, some, List,
  [], ◌∷◌, any_row, update_rows, if◌then◌else◌, arith,
}
use g04_final_project_d_25_c.Exec.{ok, ◌>>=◌}
use g04_final_project_d_25_c.Database.{Database, FriendRequest}
use g04_final_project_d_25_c.Database.Users.{find_user_id}
use g04_final_project_d_25_c.Database.Friends.{
  has_friendship, has_pending, asks, is_pending, answer, respond_friend_request, remove_friend,
  settle_request,
}
use g04_final_project_d_25_c.Database.Friends.Symmetry.{
  is_pair, has_friendship-befriended, requests-befriended, has_friendship-drop_friendship,
}

-- The rows that ask and wait are the ones that are answered.
no_longer :
    (p : Bool) (v : Bool) (q : FriendRequest) (s r : ℕ)
    → (asks s r q && is_pending q.status) ≡ p
    → (asks s r (if p then record q { status = answer v } else q)
        && is_pending (if p then record q { status = answer v } else q).status)
      ≡ false
no_longer true true q s r h = ground arith
no_longer true false q s r h = ground arith
no_longer false v q s r h = h

settled-none :
    (s r : ℕ) (v : Bool) (l : List FriendRequest)
    → any_row
        (λ q. asks s r q && is_pending q.status)
        (update_rows
          (λ q. asks s r q && is_pending q.status)
          (λ q. record q { status = answer v })
          l)
      ≡ false
settled-none s r v [] = refl
settled-none s r v (q ∷ l) =
    rw (no_longer (asks s r q && is_pending q.status) v q s r refl) (settled-none s r v l)

or_false : (p : Bool) → p ≡ (p || false)
or_false true = refl
or_false false = refl

or_assoc : (p q r : Bool) → ((p || q) || r) ≡ (p || (q || r))
or_assoc true q r = refl
or_assoc false q r = refl

-- Answering a request between two users who exist succeeds, and no request from the one to the other
-- waits any more. If the answer is yes, the two are friends in both directions; no other friendship
-- changes, and if the answer is no, none does.
pub respond_friend_request-answered :
    (sender receiver : String) (accept : Bool) (a b x y : ℕ) (d : Database)
    → find_user_id sender d ≡ some a
    → find_user_id receiver d ≡ some b
    → ((respond_friend_request sender receiver accept d).0 ≡ ok tt)
      × (has_pending a b (respond_friend_request sender receiver accept d).1 ≡ false)
      × (has_friendship x y (respond_friend_request sender receiver accept d).1
          ≡ (has_friendship x y d || (accept && (is_pair a b x y || is_pair b a x y))))
unfolding respond_friend_request ◌>>=◌
respond_friend_request-answered sender receiver true a b x y d h k =
    rw (h, k)
      (
        refl,
        ap (λ t. any_row (λ q. asks a b q && is_pending q.status) t.rows)
              (requests-befriended a b (settle_request a b true d))
            ∙ settled-none a b true d.friend_requests.rows,
        has_friendship-befriended a b x y (settle_request a b true d)
            ∙ or_assoc (has_friendship x y d) (is_pair a b x y) (is_pair b a x y),
      )
respond_friend_request-answered sender receiver false a b x y d h k =
    rw (h, k) (refl, settled-none a b false d.friend_requests.rows, or_false (has_friendship x y d))

-- Ending a friendship between two users who exist takes it away in both directions, and no other.
pub remove_friend-ended :
    (name friend : String) (a b x y : ℕ) (d : Database)
    → find_user_id name d ≡ some a
    → find_user_id friend d ≡ some b
    → has_friendship x y (remove_friend name friend d)
      ≡ (has_friendship x y d && not (is_pair a b x y || is_pair b a x y))
unfolding remove_friend
remove_friend-ended name friend a b x y d h k =
    rw (h, k, remove_friend) (has_friendship-drop_friendship a b x y d)
