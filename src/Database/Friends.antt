-- ===== src/Database/Friends.antt =====
-- database/db.py: friend requests and friendships.
pub mod Symmetry
pub mod Answers
pub mod Race
use g04_final_project_d_25_c.Prelude.{
  ℕ, Bool, true, false, ◌&&◌, ◌||◌, not, String, ◌==◌, String_eq, ℕ_eq, Option, none, some, List,
  [], ◌∷◌, map, any_row, find_row, keep_if, update_rows, if◌then◌else◌, leb, join_text,
}
use g04_final_project_d_25_c.Exec.{
  value_error, Exec, pure, gets, modify, when, require, ◌>>=◌, ◌>>◌,
}
use g04_final_project_d_25_c.Database.{
  Database, FriendRequest, Friendship, RequestStatus, pending, accepted, rejected, User, insert_row,
  sort_by,
}
use g04_final_project_d_25_c.Database.Users.{find_user_id, get_or_create_user, user_by_id}

abbrev pub is_pending : RequestStatus → Bool
is_pending pending = true
is_pending accepted = false
is_pending rejected = false

abbrev pub asks : ℕ → ℕ → FriendRequest → Bool
asks s r q = q.sender_id == s && q.receiver_id == r

abbrev pub links : ℕ → ℕ → Friendship → Bool
links a b f = f.user_id == a && f.friend_id == b

-- A test on the ids of two users, which fails if one of them is unknown.
abbrev pub both_known : Option ℕ → Option ℕ → (ℕ → ℕ → Bool) → Bool
both_known none r p = false
both_known (some a) none p = false
both_known (some a) (some b) p = p a b

abbrev pub has_pending : ℕ → ℕ → Database → Bool
has_pending s r db = any_row (λ q. asks s r q && is_pending q.status) db.friend_requests.rows

abbrev pub has_friendship : ℕ → ℕ → Database → Bool
has_friendship a b db = any_row (links a b) db.friends.rows

unfoldable pub friend_request_exists : String → String → Database → Bool
friend_request_exists sender receiver db =
    both_known (find_user_id sender db) (find_user_id receiver db) (λ s r. has_pending s r db)

abbrev pub set_requests : (List FriendRequest → List FriendRequest) → Database → Database
set_requests f db = record db {
  friend_requests = record db.friend_requests { rows = f db.friend_requests.rows };
}

-- The three ways of `create_friend_request`, by the row that `SELECT` finds.
abbrev pub record_request : ℕ → ℕ → Database → Database
record_request s r db = elim (find_row (asks s r) db.friend_requests.rows) [
  | none ↦ record db {
    friend_requests =
        insert_row
          (λ i. record {
            id = i;
            sender_id = s;
            receiver_id = r;
            status = pending;
            created_at = db.now;
          })
          db.friend_requests;
  }
  | some q ↦
      if is_pending q.status
      then db
      else set_requests
          (update_rows (asks s r) (λ p. record p { status = pending; created_at = db.now })) db
]

unfoldable pub create_friend_request : String → String → Exec Database (Unit {0})
create_friend_request sender receiver = do
  s ← get_or_create_user sender
  found ← gets (find_user_id receiver)
  r ← require found (value_error (join_text ("User '" ∷ receiver ∷ "' does not exist." ∷ [])))
  modify (record_request s r)

unfoldable pub add_friend_by_id : ℕ → ℕ → Database → Database
add_friend_by_id a b db = if has_friendship a b db then db else record db {
  friends =
      insert_row (λ i. record { id = i; user_id = a; friend_id = b; created_at = db.now })
        db.friends;
}

abbrev pub answer : Bool → RequestStatus
answer accept = if accept then accepted else rejected

abbrev pub settle_request : ℕ → ℕ → Bool → Database → Database
settle_request s r accept = set_requests (
    update_rows (λ q. asks s r q && is_pending q.status) (λ q. record q { status = answer accept }))

unfoldable pub respond_friend_request : String → String → Bool → Exec Database (Unit {0})
respond_friend_request sender receiver accept = do
  found_s ← gets (find_user_id sender)
  found_r ← gets (find_user_id receiver)
  s ← require found_s (value_error "Invalid user in friend request response.")
  r ← require found_r (value_error "Invalid user in friend request response.")
  modify (settle_request s r accept)
  when accept (modify (add_friend_by_id s r) >> modify (add_friend_by_id r s))

-- the rows of `SELECT ... JOIN users u ON fr.sender_id = u.id`, as the names of the senders
abbrev pub sender_names : ℕ → Database → List FriendRequest → List String
sender_names r db [] = []
sender_names r db (q ∷ qs) =
    if q.receiver_id == r && is_pending q.status
    then elim (user_by_id q.sender_id db) [
      | none ↦ sender_names r db qs
      | some u ↦ u.username ∷ sender_names r db qs
    ]
    else sender_names r db qs

-- `ORDER BY fr.created_at ASC`
abbrev pub insert_request : FriendRequest → List FriendRequest → List FriendRequest
insert_request q [] = q ∷ []
insert_request q (p ∷ ps) =
    if leb q.created_at p.created_at then q ∷ p ∷ ps else p ∷ insert_request q ps

abbrev pub by_creation : List FriendRequest → List FriendRequest
by_creation [] = []
by_creation (q ∷ qs) = insert_request q (by_creation qs)

unfoldable pub list_pending_friend_requests : String → Database → List String
list_pending_friend_requests name db = elim (find_user_id name db) [
  | none ↦ []
  | some r ↦ sender_names r db (by_creation db.friend_requests.rows)
]

-- A row of `list_friends`.
pub record FriendRecord : Type 0 where
  pub friend_name : String
  pub status : String

-- The join of `friends` with both users, where the first has the name.
abbrev pub friend_rows : String → Database → List Friendship → List FriendRecord
friend_rows name db [] = []
friend_rows name db (f ∷ fs) = elim (user_by_id f.user_id db) [
  | none ↦ friend_rows name db fs
  | some u ↦
      if u.username == name
      then elim (user_by_id f.friend_id db) [
        | none ↦ friend_rows name db fs
        | some v ↦ record { friend_name = v.username; status = v.status } ∷ friend_rows name db fs
      ]
      else friend_rows name db fs
]

unfoldable pub list_friends : String → Database → List FriendRecord
list_friends name db = elim (find_user_id name db) [
  | none ↦ []
  | some _ ↦ sort_by (λ r. r.friend_name) (friend_rows name db db.friends.rows)
]

unfoldable pub are_friends : String → String → Database → Bool
are_friends name friend db =
    both_known (find_user_id name db) (find_user_id friend db) (λ a b. has_friendship a b db)

abbrev pub drop_friendship : ℕ → ℕ → Database → Database
drop_friendship a b db = record db {
  friends = record db.friends {
    rows = keep_if (λ f. not (links a b f || links b a f)) db.friends.rows;
  };
}

unfoldable pub remove_friend : String → String → Database → Database
remove_friend name friend db = elim (find_user_id name db) [
  | none ↦ db
  | some a ↦ elim (find_user_id friend db) [ none ↦ db | some b ↦ drop_friendship a b db ]
]
