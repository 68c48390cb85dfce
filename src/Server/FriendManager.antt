-- ===== src/Server/FriendManager.antt =====
-- friends/request_handler.py and friends/friend_list.py
use g04_final_project_d_25_c.Prelude.{
  true, false, not, String, ◌==◌, String_eq, none, some, List, [], ◌∷◌, is_some, join_text,
}
use g04_final_project_d_25_c.Exec.{Exec, value_error, pure, gets, ensure, when, ◌>>=◌, ◌>>◌}
use g04_final_project_d_25_c.Database.Users.{find_user_id, get_or_create_user}
use g04_final_project_d_25_c.Database.Friends as DbFriends
use g04_final_project_d_25_c.Protocol.{Friend, string, roster, friend_request, friend_list, system}
use g04_final_project_d_25_c.Server.State.{Server, on_db, query, update_db}
use g04_final_project_d_25_c.Server.Connections
use g04_final_project_d_25_c.Server.Connections.{send}

-- `send`, with its result ignored, of a SYSTEM packet with one message
unfoldable pub notify : String → List String → Exec Server (Unit {0})
notify username pieces = do
  send username system (("message", string (join_text pieces)) ∷ [])
  pure tt

unfoldable pub send_request : String → String → Exec Server (Unit {0})
send_request sender receiver = do
  ensure (not (sender == receiver)) (value_error "Cannot add yourself as a friend.")
  receiver_id ← query (find_user_id receiver)
  ensure (is_some receiver_id)
      (value_error (join_text ("User '" ∷ receiver ∷ "' does not exist." ∷ [])))
  on_db (get_or_create_user sender)
  friends ← query (DbFriends.are_friends sender receiver)
  ensure (not friends) (value_error (join_text (receiver ∷ " is already your friend." ∷ [])))
  waiting ← query (DbFriends.friend_request_exists sender receiver)
  ensure (not waiting) (value_error "A friend request is already pending.")
  on_db (DbFriends.create_friend_request sender receiver)
  there ← gets (λ s. is_some (Connections.get receiver s))
  when there (do
    send receiver friend_request (
        ("sender", string sender)
        ∷ ("message", string (join_text ("Friend request from " ∷ sender ∷ [])))
        ∷ [])
    pure tt)

abbrev pub no_pending : String → String
no_pending sender = join_text ("No pending friend request from " ∷ sender ∷ "." ∷ [])

unfoldable pub accept_request : String → String → Exec Server (Unit {0})
accept_request receiver sender = do
  waiting ← query (DbFriends.friend_request_exists sender receiver)
  ensure waiting (value_error (no_pending sender))
  on_db (DbFriends.respond_friend_request sender receiver true)
  notify sender (receiver ∷ " accepted your friend request." ∷ [])
  notify receiver ("You are now friends with " ∷ sender ∷ "." ∷ [])

unfoldable pub reject_request : String → String → Exec Server (Unit {0})
reject_request receiver sender = do
  waiting ← query (DbFriends.friend_request_exists sender receiver)
  ensure waiting (value_error (no_pending sender))
  on_db (DbFriends.respond_friend_request sender receiver false)
  notify sender (receiver ∷ " rejected your friend request." ∷ [])
  notify receiver ("You rejected the friend request from " ∷ sender ∷ "." ∷ [])

unfoldable pub presence_status : String → Server → String
presence_status friend_name s = elim (Connections.get friend_name s) [
  | none ↦ "OFFLINE"
  | some _ ↦ "ONLINE"
]

abbrev pub friend_entries : List DbFriends.FriendRecord → Server → List Friend
friend_entries [] s = []
friend_entries (r ∷ rs) s =
    record { username = r.friend_name; status = presence_status r.friend_name s }
    ∷ friend_entries rs s

unfoldable pub send_friend_list : String → Exec Server (Unit {0})
send_friend_list username = do
  records ← query (DbFriends.list_friends username)
  friends ← gets (friend_entries records)
  send username friend_list (("friends", roster friends) ∷ [])
  pure tt

unfoldable pub remove_friend : String → String → Exec Server (Unit {0})
remove_friend username friend_name = do
  friends ← query (DbFriends.are_friends username friend_name)
  ensure friends (value_error (join_text (friend_name ∷ " is not in your friend list." ∷ [])))
  update_db (DbFriends.remove_friend username friend_name)
  notify username (friend_name ∷ " has been removed from your friends." ∷ [])
