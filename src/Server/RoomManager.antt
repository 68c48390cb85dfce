-- ===== src/Server/RoomManager.antt =====
-- rooms/room_manager.py: rooms in memory, loaded from the database when they are first asked for.
pub mod Joining
use text.Mathlib.Text.{starts_with}
use g04_final_project_d_25_c.Prelude.{
  ℤ, pos, Bool, true, false, ◌&&◌, ◌||◌, not, String, ◌==◌, String_eq, Option, none, some, List, [],
  ◌∷◌, if◌then◌else◌, add, discard, contains, length, reaches, is_empty, is_some, is_none,
  join_text,
}
use g04_final_project_d_25_c.Dict
use g04_final_project_d_25_c.Dict.{keys}
use g04_final_project_d_25_c.Exec.{Exec, value_error, pure, raise, gets, modify, when, ◌>>=◌, ◌>>◌}
use g04_final_project_d_25_c.Database.{Database, RoomRow, sort_by}
use g04_final_project_d_25_c.Database.Users.{find_username}
use g04_final_project_d_25_c.Database.Rooms as DbRooms
use g04_final_project_d_25_c.Server.State.{Server, Room, on_db, query, update_db}

-- `name or "system"`
abbrev pub owner_name : Option String → String
owner_name none = "system"
owner_name (some n) = if n == "" then "system" else n

unfoldable pub room_of_row : RoomRow → List String → Database → Room
room_of_row row members db = record {
  name = row.name;
  owner = owner_name (find_username row.owner_id db);
  visibility = row.visibility;
  max_capacity = row.max_capacity;
  invite_only = row.invite_only;
  password = row.password;
  members = members;
  invites = [];
}

-- The room that the database has under the name, as an object.
unfoldable pub stored_room : String → Database → Option Room
stored_room room_name db = elim (DbRooms.get_room room_name db) [
  | none ↦ none
  | some row ↦ some (room_of_row row (DbRooms.list_room_members room_name db) db)
]

abbrev pub put_room : String → Room → Server → Server
put_room room_name r s = record s { rooms = Dict.put room_name r s.rooms }

unfoldable pub load_room : String → Exec Server (Option Room)
load_room room_name = do
  held ← gets (λ s. Dict.get room_name s.rooms)
  if is_some held then pure held else do
    found ← query (stored_room room_name)
    modify (λ s. elim found [ none ↦ s | some r ↦ put_room room_name r s ])
    pure found

unfoldable pub get_room : String → Exec Server (Option Room)
get_room room_name = load_room room_name

unfoldable pub create_room : String → String → String → ℤ → Bool → Option String → Exec Server Bool
create_room room_name owner visibility capacity invite_only password = do
  free ← query (λ db. is_none (DbRooms.get_room room_name db))
  if not free then pure false else do
    created ← on_db (DbRooms.create_room room_name owner visibility capacity invite_only password)
    if not created then pure false else do
      on_db (DbRooms.add_room_member room_name owner)
      modify (
          put_room room_name (record {
            name = room_name;
            owner = owner;
            visibility = visibility;
            max_capacity = capacity;
            invite_only = invite_only;
            password = password;
            members = owner ∷ [];
            invites = [];
          }))
      pure true

-- `room.password and room.password != password`
abbrev pub wrong_password : Option String → Option String → Bool
wrong_password none given = false
wrong_password (some p) none = not (p == "")
wrong_password (some p) (some q) = not (p == "") && not (p == q)

-- The reasons to refuse, in the order of the code.
unfoldable pub refusal : Room → String → String → Option String → Bool → Option String
refusal r room_name username password invited =
    if r.invite_only
      && not (contains username r.invites)
      && not (username == r.owner)
      && not invited
    then some (join_text ("Room '" ∷ room_name ∷ "' is invite-only." ∷ []))
    else if wrong_password r.password password
    then some "Incorrect room password."
    else if reaches (length r.members) r.max_capacity
    then some (join_text ("Room '" ∷ room_name ∷ "' is full." ∷ []))
    else none

abbrev pub add_member : String → Room → Room
add_member username r = record r { members = add username r.members }

-- What `join_room` does with the room that it found; the error is none on success.
unfoldable pub join_found :
    Option Room → String → String → Option String → Exec Server (Option String)
join_found none room_name username password =
    pure (some (join_text ("Room '" ∷ room_name ∷ "' does not exist." ∷ [])))
join_found (some r) room_name username password = do
  invited ← query (DbRooms.is_room_invited room_name username)
  let no_entry = refusal r room_name username password invited
  if is_some no_entry then pure no_entry else do
    modify (put_room room_name (add_member username r))
    on_db (DbRooms.add_room_member room_name username)
    pure none

unfoldable pub join_room : String → String → Option String → Exec Server (Option String)
join_room room_name username password = do
  r ← get_room room_name
  join_found r room_name username password

unfoldable pub delete_room : String → Exec Server (Unit {0})
delete_room room_name = do
  modify (λ s. record s { rooms = Dict.pop room_name s.rooms })
  update_db (DbRooms.delete_room room_name)

abbrev pub drop_member : String → Room → Room
drop_member username r = record r { members = discard username r.members }

unfoldable pub leave_found : Option Room → String → String → Exec Server (Unit {0})
leave_found none room_name username = pure tt
leave_found (some r) room_name username = do
  modify (put_room room_name (drop_member username r))
  update_db (DbRooms.remove_room_member room_name username)
  when (starts_with room_name "match_" && is_empty (drop_member username r).members)
      (delete_room room_name)

unfoldable pub leave_room : String → String → Exec Server (Unit {0})
leave_room room_name username = do r ← get_room room_name; leave_found r room_name username

abbrev pub no_such_room : String → String
no_such_room room_name = join_text ("Room '" ∷ room_name ∷ "' does not exist." ∷ [])

unfoldable pub invite_found : Option Room → String → String → Exec Server (Unit {0})
invite_found none room_name username = raise (value_error (no_such_room room_name))
invite_found (some r) room_name username =
    modify (put_room room_name (record r { invites = add username r.invites }))

unfoldable pub invite_user : String → String → Exec Server (Unit {0})
invite_user room_name username = do r ← get_room room_name; invite_found r room_name username

unfoldable pub kick_found : Option Room → String → String → Exec Server (Unit {0})
kick_found none room_name username = raise (value_error (no_such_room room_name))
kick_found (some r) room_name username = do
  modify (put_room room_name (drop_member username r))
  update_db (DbRooms.remove_room_member room_name username)

unfoldable pub kick_user : String → String → Exec Server (Unit {0})
kick_user room_name username = do r ← get_room room_name; kick_found r room_name username

unfoldable pub is_owner : String → String → Exec Server Bool
is_owner room_name username = do
  r ← get_room room_name
  pure (elim r [ none ↦ false | some x ↦ x.owner == username ])

unfoldable pub is_room_member : String → String → Exec Server Bool
is_room_member room_name username = do
  r ← get_room room_name
  pure (elim r [ none ↦ false | some x ↦ contains username x.members ])

unfoldable pub get_members : String → Exec Server (List String)
get_members room_name = do r ← get_room room_name; pure (elim r [ none ↦ [] | some x ↦ x.members ])

unfoldable pub list_rooms : Server → List String
list_rooms s = sort_by (λ n. n) (keys s.rooms)

unfoldable pub get_room_owner : String → Exec Server (Option String)
get_room_owner room_name = do
  r ← get_room room_name
  pure (elim r [ none ↦ none | some x ↦ some x.owner ])

-- `__init__`: the global room is made if the database does not have it, and loaded.
unfoldable pub init_rooms : Exec Server (Unit {0})
init_rooms = do
  missing ← query (λ db. is_none (DbRooms.get_room "global" db))
  when missing
      (do on_db (DbRooms.create_room "global" "system" "public" (pos 999) false none); pure tt)
  load_room "global"
  pure tt
