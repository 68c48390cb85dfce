-- ===== src/Database/Rooms.antt =====
-- database/db.py: rooms, their members and their invitations.
use g04_final_project_d_25_c.Prelude.{
  ℕ, ℤ, Bool, false, ◌&&◌, not, String, ◌==◌, String_eq, ℕ_eq, Option, none, some, List, [], ◌∷◌,
  any_row, find_row, keep_if, if◌then◌else◌, is_none, pos, negsuc, ltb, ◌^◌,
}
use g04_final_project_d_25_c.Exec.{
  value_error, internal_error, Exec, pure, ensure, gets, modify, when, require, ◌>>=◌, ◌>>◌,
}
use g04_final_project_d_25_c.Database.{Database, RoomRow, MemberRow, InviteRow, insert_row, sort_by}
use g04_final_project_d_25_c.Database.Users.{find_user_id, get_or_create_user, user_by_id}

unfoldable pub get_room : String → Database → Option RoomRow
get_room name db = find_row (λ r. r.name == name) db.rooms.rows

abbrev pub insert_room : String → ℕ → String → ℤ → Bool → Option String → Database → Database
insert_room name owner visibility capacity invite_only password db = record db {
  rooms =
      insert_row
        (λ i. record {
          id = i;
          name = name;
          owner_id = owner;
          visibility = visibility;
          max_capacity = capacity;
          invite_only = invite_only;
          password = password;
          created_at = db.now;
        })
        db.rooms;
}

-- SQLite takes integers of 64 bits; Python raises an OverflowError for any other.
abbrev pub fits_column : ℤ → Bool
fits_column (pos n) = ltb n (2 ^ 63)
fits_column (negsuc n) = ltb n (2 ^ 63)

unfoldable pub create_room :
    String → String → String → ℤ → Bool → Option String → Exec Database Bool
create_room name owner visibility capacity invite_only password = do
  owner_id ← get_or_create_user owner
  free ← gets (λ db. is_none (get_room name db))
  when free (ensure (fits_column capacity) internal_error)
  when free (modify (insert_room name owner_id visibility capacity invite_only password))
  pure free

abbrev pub drop_room : ℕ → Database → Database
drop_room i db = record db {
  room_invites = record db.room_invites {
    rows = keep_if (λ r. not (r.room_id == i)) db.room_invites.rows;
  };
  room_members = record db.room_members {
    rows = keep_if (λ r. not (r.room_id == i)) db.room_members.rows;
  };
  rooms = record db.rooms { rows = keep_if (λ r. not (r.id == i)) db.rooms.rows };
}

unfoldable pub delete_room : String → Database → Database
delete_room name db = elim (get_room name db) [ none ↦ db | some r ↦ drop_room r.id db ]

abbrev pub is_member_row : ℕ → ℕ → MemberRow → Bool
is_member_row r u m = m.room_id == r && m.user_id == u

-- `INSERT OR IGNORE`
abbrev pub insert_member : ℕ → ℕ → Database → Database
insert_member r u db = if any_row (is_member_row r u) db.room_members.rows then db else record db {
  room_members =
      insert_row (λ i. record { id = i; room_id = r; user_id = u; joined_at = db.now })
        db.room_members;
}

unfoldable pub add_room_member : String → String → Exec Database (Unit {0})
add_room_member room_name username = do
  found ← gets (get_room room_name)
  user_id ← get_or_create_user username
  room ← require found (value_error "Room does not exist.")
  modify (insert_member room.id user_id)

abbrev pub drop_member : ℕ → ℕ → Database → Database
drop_member r u db = record db {
  room_members = record db.room_members {
    rows = keep_if (λ m. not (is_member_row r u m)) db.room_members.rows;
  };
}

unfoldable pub remove_room_member : String → String → Database → Database
remove_room_member room_name username db = elim (get_room room_name db) [
  | none ↦ db
  | some r ↦ elim (find_user_id username db) [ none ↦ db | some u ↦ drop_member r.id u db ]
]

-- The join of the members of one room with the users, as names.
abbrev pub member_names : ℕ → Database → List MemberRow → List String
member_names r db [] = []
member_names r db (m ∷ ms) =
    if m.room_id == r
    then elim (user_by_id m.user_id db) [
      | none ↦ member_names r db ms
      | some u ↦ u.username ∷ member_names r db ms
    ]
    else member_names r db ms

unfoldable pub list_room_members : String → Database → List String
list_room_members room_name db = elim (get_room room_name db) [
  | none ↦ []
  | some r ↦ sort_by (λ n. n) (member_names r.id db db.room_members.rows)
]

abbrev pub is_invite_row : ℕ → ℕ → InviteRow → Bool
is_invite_row r u v = v.room_id == r && v.invitee_id == u

-- `INSERT OR IGNORE`, by the unique pair of room and invitee
abbrev pub insert_invite : ℕ → ℕ → ℕ → Database → Database
insert_invite r inviter invitee db =
    if any_row (is_invite_row r invitee) db.room_invites.rows then db else record db {
      room_invites =
          insert_row
            (λ i. record {
              id = i;
              room_id = r;
              inviter_id = inviter;
              invitee_id = invitee;
              created_at = db.now;
            })
            db.room_invites;
    }

unfoldable pub invite_room_user : String → String → String → Exec Database (Unit {0})
invite_room_user room_name inviter invitee = do
  found_room ← gets (get_room room_name)
  found_inviter ← gets (find_user_id inviter)
  found_invitee ← gets (find_user_id invitee)
  room ← require found_room (value_error "Invalid invitation data.")
  inviter_id ← require found_inviter (value_error "Invalid invitation data.")
  invitee_id ← require found_invitee (value_error "Invalid invitation data.")
  modify (insert_invite room.id inviter_id invitee_id)

unfoldable pub is_room_invited : String → String → Database → Bool
is_room_invited room_name username db = elim (get_room room_name db) [
  | none ↦ false
  | some r ↦ elim (find_user_id username db) [
    | none ↦ false
    | some u ↦ any_row (is_invite_row r.id u) db.room_invites.rows
  ]
]
