-- ===== src/Database/Users.antt =====
-- database/db.py: accounts and their password hashes.
pub mod Unique
pub mod Passwords
use g04_final_project_d_25_c.Prelude.{
  ℕ, Bool, not, String, ◌==◌, Option, none, some, find_row, update_rows, String_eq, ℕ_eq,
}
use g04_final_project_d_25_c.Exec.{
  PyError, value_error, Exec, pure, raise, gets, modify, ensure, ◌>>=◌, ◌>>◌,
}
use g04_final_project_d_25_c.Database.{User, Database, insert_row}

abbrev pub user_by_name : String → Database → Option User
user_by_name name db = find_row (λ u. u.username == name) db.users.rows

abbrev pub user_by_id : ℕ → Database → Option User
user_by_id i db = find_row (λ u. u.id == i) db.users.rows

unfoldable pub find_user_id : String → Database → Option ℕ
find_user_id name db = elim (user_by_name name db) [ none ↦ none | some u ↦ some u.id ]

unfoldable pub find_username : ℕ → Database → Option String
find_username i db = elim (user_by_id i db) [ none ↦ none | some u ↦ some u.username ]

unfoldable pub get_user_password_hash : String → Database → Option String
get_user_password_hash name db = elim (user_by_name name db) [
  | none ↦ none
  | some u ↦ u.password_hash
]

abbrev pub insert_user : String → String → Option String → Database → Database
insert_user name status hash db = record db {
  users =
      insert_row
        (λ i. record {
          id = i;
          username = name;
          status = status;
          created_at = db.now;
          password_hash = hash;
        })
        db.users;
}

abbrev pub update_users : (User → Bool) → (User → User) → Database → Database
update_users p f db = record db { users = record db.users { rows = update_rows p f db.users.rows } }

-- The id that the row has now, or the one that `INSERT` will give.
abbrev pub id_or_next : Option ℕ → Database → ℕ
id_or_next none db = db.users.next_id
id_or_next (some i) db = i

unfoldable pub set_user_password : String → String → Exec Database ℕ
set_user_password name hash = do
  ensure (not (name == "")) (value_error "Username cannot be empty")
  existing ← gets (find_user_id name)
  i ← gets (id_or_next existing)
  modify (λ db. elim existing [
    | none ↦ insert_user name "OFFLINE" (some hash) db
    | some _ ↦
        update_users (λ u. u.username == name) (λ u. record u { password_hash = some hash }) db
  ])
  pure i

-- The account's row is added if it is not there.
abbrev pub with_user : String → Database → Database
with_user name db = elim (find_user_id name db) [
  | none ↦ insert_user name "ONLINE" none db
  | some _ ↦ db
]

unfoldable pub get_or_create_user : String → Exec Database ℕ
get_or_create_user name = do
  ensure (not (name == "")) (value_error "Username cannot be empty")
  i ← gets (λ db. id_or_next (find_user_id name db) db)
  modify (with_user name)
  pure i

unfoldable pub update_user_status : String → String → Database → Database
update_user_status name status =
    update_users (λ u. u.username == name) (λ u. record u { status = status })
