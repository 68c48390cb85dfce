-- ===== src/Database/Messages.antt =====
-- database/db.py: stored messages and the histories read from them.
use mathlib.Core.List.{reverse}
use g04_final_project_d_25_c.Prelude.{
  ℕ, Bool, false, ◌&&◌, ◌||◌, String, ◌==◌, String_eq, ℕ_eq, Option, none, some, List, [], ◌∷◌,
  take, if◌then◌else◌,
}
use g04_final_project_d_25_c.Exec.{internal_error, Exec, pure, raise, gets, modify, ◌>>=◌}
use g04_final_project_d_25_c.Database.{Database, MessageRow, RoomRow, User, insert_row}
use g04_final_project_d_25_c.Database.Users.{find_user_id, get_or_create_user, user_by_id}
use g04_final_project_d_25_c.Database.Rooms.{get_room}

-- `x if t else None` for an optional text: the empty one counts as none.
abbrev pub given_text : Option String → Option String
given_text none = none
given_text (some s) = if s == "" then none else some s

-- `self.get_room(room_name)["id"]`: a room that is not there is a TypeError.
abbrev pub room_id_of : Option RoomRow → Exec Database (Option ℕ)
room_id_of none = raise internal_error
room_id_of (some r) = pure (some r.id)

abbrev pub message_room : Option String → Exec Database (Option ℕ)
message_room none = pure none
message_room (some name) = do found ← gets (get_room name); room_id_of found

abbrev pub message_receiver : Option String → Database → Option ℕ
message_receiver none db = none
message_receiver (some target) db = find_user_id target db

abbrev pub insert_message : ℕ → Option ℕ → Option ℕ → String → String → Database → Database
insert_message sender receiver room kind content db = record db {
  messages =
      insert_row
        (λ i. record {
          id = i;
          sender_id = sender;
          receiver_id = receiver;
          room_id = room;
          message_type = kind;
          content = content;
          timestamp = db.now;
        })
        db.messages;
}

unfoldable pub save_message :
    String → String → String → Option String → Option String → Exec Database (Unit {0})
save_message sender content message_type room_name target = do
  sender_id ← get_or_create_user sender
  receiver_id ← gets (message_receiver (given_text target))
  room_id ← message_room (given_text room_name)
  modify (insert_message sender_id receiver_id room_id message_type content)

-- A row of a history.
pub record HistoryEntry : Type 0 where
  pub sender : String
  pub content : String
  pub timestamp : ℕ

abbrev pub is_for_room : Option ℕ → ℕ → Bool
is_for_room none r = false
is_for_room (some i) r = i == r

-- The join of the messages of one room with their senders, by rising id.
abbrev pub room_entries : ℕ → Database → List MessageRow → List HistoryEntry
room_entries r db [] = []
room_entries r db (m ∷ ms) =
    if is_for_room m.room_id r
    then elim (user_by_id m.sender_id db) [
      | none ↦ room_entries r db ms
      | some u ↦
          record { sender = u.username; content = m.content; timestamp = m.timestamp }
          ∷ room_entries r db ms
    ]
    else room_entries r db ms

-- `ORDER BY m.id DESC LIMIT limit`, reversed again
unfoldable pub fetch_room_messages : String → ℕ → Database → List HistoryEntry
fetch_room_messages room_name limit db = elim (get_room room_name db) [
  | none ↦ []
  | some r ↦ reverse (take limit (reverse (room_entries r.id db db.messages.rows)))
]

-- A row of a private history.
pub record PrivateEntry : Type 0 where
  pub sender : String
  pub content : String
  pub timestamp : ℕ
  pub target : String

abbrev pub is_between : ℕ → ℕ → MessageRow → Bool
is_between a b m = m.sender_id == a && is_for_room m.receiver_id b

abbrev pub receiver_of : MessageRow → Database → Option User
receiver_of m db = elim m.receiver_id [ none ↦ none | some i ↦ user_by_id i db ]

abbrev pub private_entries : ℕ → ℕ → Database → List MessageRow → List PrivateEntry
private_entries a b db [] = []
private_entries a b db (m ∷ ms) =
    if is_between a b m || is_between b a m
    then elim (user_by_id m.sender_id db) [
      | none ↦ private_entries a b db ms
      | some u ↦ elim (receiver_of m db) [
        | none ↦ private_entries a b db ms
        | some v ↦
            record {
              sender = u.username;
              content = m.content;
              timestamp = m.timestamp;
              target = v.username;
            }
            ∷ private_entries a b db ms
      ]
    ]
    else private_entries a b db ms

unfoldable pub fetch_private_messages : String → String → ℕ → Database → List PrivateEntry
fetch_private_messages one two limit db = elim (find_user_id one db) [
  | none ↦ []
  | some a ↦ elim (find_user_id two db) [
    | none ↦ []
    | some b ↦ reverse (take limit (reverse (private_entries a b db db.messages.rows)))
  ]
]
